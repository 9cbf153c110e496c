-- ===== src/Auth/Otp.antt =====
-- apps/core-hub/src/modules/auth/otp.service.ts: one-time passwords for phone numbers, with the
-- throttle on issuing them and the limit on guesses. The clock is in milliseconds. The SHA-256
-- digest, the settings and the delivery provider are parameters.
pub mod Throttle
pub mod Guesses
pub mod Codes
use mathlib.Core.List.{reverse}
use madinaty_ai_core_mesh.Base.{
  ℕ, ◌+◌, ◌*◌, Bool, true, false, not, ◌&&◌, ◌||◌, List, [], ◌∷◌, ◌++◌, Option, none, some, leb,
  ltb, if◌then◌else◌, is_some, or_else, keep_if, count,
}
use madinaty_ai_core_mesh.Base.Text.{Text, codes, same_text, truthy}
use madinaty_ai_core_mesh.Base.Action.{
  Action, pure, throw, gets, modify, or_throw, throw_if, ◌>>=◌, ◌>>◌,
}
use madinaty_ai_core_mesh.Base.Table.{Keyed, update, update_where}

pub data Purpose : Type 0 where
  login register : Purpose

pub record Challenge : Type 0 where
  pub id : ℕ
  pub phone_number : Text
  pub code_hash : Text
  pub purpose : Purpose
  pub expires_at : ℕ
  pub created_at : ℕ
  pub consumed_at : Option ℕ
  pub attempts : ℕ

instance abbrev pub challenge_keyed : Keyed Challenge
challenge_keyed = record { key = λ c. c.id }

-- What `ConfigService` holds, and `hash`.
pub record Settings : Type 0 where
  pub otp_ttl_seconds : Option ℕ
  pub otp_max_attempts : Option ℕ
  pub waha_base_url : Option Text
  pub waha_api_key : Option Text
  pub dev_bypass : Option Bool
  pub dev_bypass_code : Option Text
  pub hash : Text → Text → Text

pub data Error : Type 0 where
  rate_limited : ℕ → Error
  no_active_challenge otp_expired too_many_attempts incorrect_otp delivery_failed : Error

abbrev pub min_gap_seconds : ℕ
min_gap_seconds = 60

abbrev pub hourly_cap : ℕ
hourly_cap = 5

-- `where: { phoneNumber, createdAt: { gt: new Date(now - window) } }`
abbrev pub is_recent : Text → ℕ → ℕ → Challenge → Bool
is_recent phone window now c = same_text c.phone_number phone && ltb now (c.created_at + window)

unfoldable pub enforce_per_phone_throttle : ℕ → Text → Action Error (List Challenge) (Unit {0})
enforce_per_phone_throttle now phone = do
  recent_burst ← gets λ rows. count (is_recent phone (min_gap_seconds * 1000) now) rows
  hourly ← gets λ rows. count (is_recent phone (3600 * 1000) now) rows
  throw_if (ltb 0 recent_burst) (rate_limited min_gap_seconds)
  throw_if (leb hourly_cap hourly) (rate_limited 3600)

abbrev pub is_pending : Text → ℕ → Challenge → Bool
is_pending phone now c =
    same_text c.phone_number phone && not (is_some c.consumed_at) && ltb now c.expires_at

abbrev pub retire : ℕ → Challenge → Challenge
retire now c = record c { consumed_at = some now; attempts = 99 }

abbrev pub new_challenge : Settings → ℕ → ℕ → Text → Text → Purpose → Challenge
new_challenge settings fresh now phone code purpose = record {
  id = fresh;
  phone_number = phone;
  code_hash = settings.hash phone code;
  purpose = purpose;
  expires_at = now + or_else settings.otp_ttl_seconds 300 * 1000;
  created_at = now;
  consumed_at = none;
  attempts = 0;
}

-- `issue`: `fresh` is the id that the database gives the row, `now` and `later` are the clock at
-- the throttle and at the writes, `code` is the one that was drawn, and the last argument is
-- whether the delivery returned.
unfoldable pub issue :
    Settings → ℕ → ℕ → ℕ → Text → Text → Purpose → Bool → Action Error (List Challenge) (Unit {0})
issue settings fresh now later phone code purpose delivered = do
  enforce_per_phone_throttle now phone
  modify λ rows. update_where (is_pending phone later) (retire later) rows
  modify λ rows. rows ++ new_challenge settings fresh later phone code purpose ∷ []
  throw_if (not delivered) delivery_failed

unfoldable pub is_dev_bypass : Settings → Text → Bool
is_dev_bypass settings code =
    if is_some (truthy settings.waha_base_url) && is_some (truthy settings.waha_api_key)
    then false
    else if not (or_else settings.dev_bypass false)
    then false
    else same_text code (or_else settings.dev_bypass_code (codes "000000"))

-- `orderBy: { createdAt: 'desc' }`, the first; of rows with the same time the later.
abbrev pub newest : List Challenge → Option Challenge
newest [] = none
newest (c ∷ cs) = elim (newest cs) [
  | none ↦ some c
  | some d ↦ if ltb d.created_at c.created_at then some c else some d
]

abbrev pub is_open : Text → Challenge → Bool
is_open phone c = same_text c.phone_number phone && not (is_some c.consumed_at)

abbrev pub consume : ℕ → Challenge → Challenge
consume now c = record c { consumed_at = some now }

-- `attempts: challenge.attempts + 1`, computed from the row that was read.
abbrev pub count_attempt : ℕ → Challenge → Challenge
count_attempt attempts c = record c { attempts = attempts + 1 }

-- The rest of `verify`, on the challenge found.
unfoldable pub verify_against :
    Settings → ℕ → Text → Text → Challenge → Action Error (List Challenge) Bool
verify_against settings now phone code c rows =
    if ltb c.expires_at now
    then throw otp_expired rows
    else if leb (or_else settings.otp_max_attempts 5) c.attempts
    then throw too_many_attempts (update c.id (consume now) rows)
    else if not (same_text c.code_hash (settings.hash phone code))
    then throw incorrect_otp (update c.id (count_attempt c.attempts) rows)
    else pure true (update c.id (consume now) rows)

unfoldable pub verify : Settings → ℕ → Text → Text → Action Error (List Challenge) Bool
verify settings now phone code = if is_dev_bypass settings code then pure true else do
  challenge ← gets λ rows. newest (keep_if (is_open phone) rows)
  row ← or_throw challenge no_active_challenge
  verify_against settings now phone code row
