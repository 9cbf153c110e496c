-- ===== src/Auth/Otp/Codes.antt =====
-- The code that was sent opens the challenge.
use madinaty_ai_core_mesh.Base.{
  ℕ, ◌+◌, ◌*◌, ◌≤◌, ◌≡◌, refl, ap, ◌∙◌, arith, inl, inr, Bool, true, some, List, [], ◌∷◌, ◌++◌,
  keep_if, All, Bool-cases, or_else,
}
use madinaty_ai_core_mesh.Base.Text.{Text, same_text_iff}
use madinaty_ai_core_mesh.Base.Action.{ok}
use madinaty_ai_core_mesh.Base.Table.{update_where}
use madinaty_ai_core_mesh.Auth.Otp.{
  Challenge, Purpose, Settings, challenge_keyed, issue, verify, verify_against, is_pending, retire,
  new_challenge, newest, is_open, is_dev_bypass,
}
use madinaty_ai_core_mesh.Auth.Otp.Guesses.{issued}

-- Created no later than `t`.
abbrev pub IsOld : ℕ → Challenge → Type 0
IsOld t c = c.created_at ≤ t

keep_if-concat :
    (p : Challenge → Bool) (xs : List Challenge) (c : Challenge)
    → p c ≡ true
    → keep_if p (xs ++ c ∷ []) ≡ keep_if p xs ++ c ∷ []
keep_if-concat p [] c h = ground arith
keep_if-concat p (x ∷ xs) c h = ground (arith, keep_if-concat p xs c h)

newest-append :
    (p q : Challenge → Bool) (f : Challenge → Challenge) (rows : List Challenge) (c : Challenge)
    → ((x : Challenge) → (f x).created_at ≡ x.created_at)
    → All (IsOld c.created_at) rows
    → newest (keep_if p (update_where q f rows) ++ c ∷ []) ≡ some c
unfolding update_where
newest-append p q f [] c same _ = refl
newest-append p q f (x ∷ rows) c same (h, old) =
    ground (arith, h, same x, newest-append p q f rows c same old)

-- The challenge that `verify` reads after an `issue` that returned.
found_newest :
    (settings : Settings) (rows : List Challenge) (fresh later : ℕ) (phone code : Text)
    (purpose : Purpose)
    → All (IsOld later) rows
    → newest (
        keep_if (is_open phone) (
          update_where (is_pending phone later) (retire later) rows
          ++ new_challenge settings fresh later phone code purpose ∷ []))
      ≡ some (new_challenge settings fresh later phone code purpose)
found_newest settings rows fresh later phone code purpose old =
    ap newest (
      keep_if-concat (is_open phone) (update_where (is_pending phone later) (retire later) rows) c
        open_now)
    ∙ newest-append (is_open phone) (is_pending phone later) (retire later) rows c (λ _. refl) old
  where
    c : Challenge
    c = new_challenge settings fresh later phone code purpose

    open_now : is_open phone c ≡ true
    open_now = ground (arith, (same_text_iff phone phone).1 refl)

accepts :
    (settings : Settings) (fresh now later : ℕ) (phone code : Text) (purpose : Purpose)
    (rows : List Challenge)
    → newest (keep_if (is_open phone) rows)
      ≡ some (new_challenge settings fresh later phone code purpose)
    → now ≤ later + or_else settings.otp_ttl_seconds 300 * 1000
    → 1 ≤ or_else settings.otp_max_attempts 5
    → (verify settings now phone code rows).0 ≡ ok true
unfolding verify verify_against
accepts settings fresh now later phone code purpose rows e ttl attempts =
    elim (Bool-cases (is_dev_bypass settings code)) [
      | inl bypass ↦ rw bypass refl
      | inr plain ↦
          ground
            (arith, e, (same_text_iff (settings.hash phone code) (settings.hash phone code)).1 refl)
    ]

-- The code of an `issue` that returned is accepted for `otpTtlSeconds` (300 by default), if no
-- challenge in the table is from a later time than the new one and at least one attempt is allowed.
pub verify-issue :
    (settings : Settings) (rows : List Challenge) (fresh now later at : ℕ) (phone code : Text)
    (purpose : Purpose) (delivered : Bool)
    → All (IsOld later) rows
    → (issue settings fresh now later phone code purpose delivered rows).0 ≡ ok tt
    → at ≤ later + or_else settings.otp_ttl_seconds 300 * 1000
    → 1 ≤ or_else settings.otp_max_attempts 5
    → (verify settings at phone code
        (issue settings fresh now later phone code purpose delivered rows).1).0
      ≡ ok true
verify-issue settings rows fresh now later at phone code purpose delivered old h ttl attempts =
    rw (issued settings rows fresh now later phone code purpose delivered h) (
      accepts settings fresh at later phone code purpose
        (update_where (is_pending phone later) (retire later) rows
          ++ new_challenge settings fresh later phone code purpose ∷ [])
        (found_newest settings rows fresh later phone code purpose old) ttl attempts)
