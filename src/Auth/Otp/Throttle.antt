-- ===== src/Auth/Otp/Throttle.antt =====
-- How many challenges a phone number gets: the throttle of `issue`, over histories of calls.
use madinaty_ai_core_mesh.Base.{
  ℕ, ◌+◌, ◌≤◌, ◌≡◌, refl, sym, arith, inl, inr, ◌⊎◌, subst, Bool, true, ◌&&◌, leb, ltb, List, [],
  ◌∷◌, ◌++◌, count, count-append, keep_if, Option-cases,
}
use madinaty_ai_core_mesh.Base.Text.{Text, same_text, same_text_iff}
use madinaty_ai_core_mesh.Base.Table.{update_where, count-update_blind, count-update_where}
use madinaty_ai_core_mesh.Auth.Otp.{
  Challenge, Purpose, Settings, challenge_keyed, is_recent, enforce_per_phone_throttle, issue,
  verify, verify_against, is_pending, retire, consume, count_attempt, new_challenge, newest,
  is_open,
}

pub data Call : Type 0 where
  issues : ℕ → ℕ → ℕ → Text → Text → Purpose → Bool → Call
  verifies : ℕ → Text → Text → Call

-- The rows after a call, whether it returned or threw.
unfoldable pub step : Settings → List Challenge → Call → List Challenge
step settings rows (issues fresh now later phone code purpose delivered) =
    (issue settings fresh now later phone code purpose delivered rows).1
step settings rows (verifies now phone code) = (verify settings now phone code rows).1

unfoldable pub run : Settings → List Challenge → List Call → List Challenge
run settings rows [] = rows
run settings rows (c ∷ cs) = run settings (step settings rows c) cs

-- The clock does not go back within a call.
abbrev pub IsForward : List Call → Type 0
IsForward [] = Unit {0}
IsForward (issues _ now later _ _ _ _ ∷ cs) = (now ≤ later) × IsForward cs
IsForward (verifies _ _ _ ∷ cs) = IsForward cs

-- Created for the phone number in the window that ends at `t`.
abbrev pub is_within : Text → ℕ → ℕ → Challenge → Bool
is_within phone window t c =
    same_text c.phone_number phone && leb c.created_at t && ltb t (c.created_at + window)

recent-within :
    (phone : Text) (window now t : ℕ) (rows : List Challenge)
    → now ≤ t
    → count (is_within phone window t) rows ≤ count (is_recent phone window now) rows
recent-within phone window now t [] h = omega arith
recent-within phone window now t (c ∷ rows) h =
    ground (arith, recent-within phone window now t rows h)

module _ (settings : Settings) (phone : Text) (window cap t : ℕ) where
  verify-within :
      (rows : List Challenge) (now : ℕ) (asked code : Text)
      → count (is_within phone window t) (verify settings now asked code rows).1
        ≡ count (is_within phone window t) rows
  unfolding verify verify_against
  verify-within rows now asked code = elim (Option-cases (newest (keep_if (is_open asked) rows))) [
    | inl e ↦ ground arith
    | inr (c, e) ↦ ground (
      arith,
      count-update_blind (is_within phone window t) c.id (consume now) rows (λ _. refl),
      count-update_blind (is_within phone window t) c.id (count_attempt c.attempts) rows
          (λ _. refl),
    )
  ]

  granted-within :
      (rows : List Challenge) (fresh now later : ℕ) (asked code : Text) (purpose : Purpose)
      → now ≤ later
      → count (is_within phone window t) rows ≤ cap
      → (same_text asked phone ≡ true → count (is_recent phone window now) rows + 1 ≤ cap)
      → count (is_within phone window t) (
          update_where (is_pending asked later) (retire later) rows
          ++ new_challenge settings fresh later asked code purpose ∷ [])
        ≤ cap
  granted-within rows fresh now later asked code purpose h old room = ground (
    arith,
    room,
    recent-within phone window now t rows,
    count-update_where (is_within phone window t) (is_pending asked later) (retire later) rows
        (λ _ _. refl),
    count-append (is_within phone window t)
        (update_where (is_pending asked later) (retire later) rows)
        (new_challenge settings fresh later asked code purpose ∷ []),
  )

-- What `issue` writes once the throttle lets it pass.
abbrev granted : Settings → ℕ → ℕ → Text → Text → Purpose → List Challenge → List Challenge
granted settings fresh later phone code purpose rows =
    update_where (is_pending phone later) (retire later) rows
    ++ new_challenge settings fresh later phone code purpose ∷ []

issue-cases :
    (settings : Settings) (rows : List Challenge) (fresh now later : ℕ) (phone code : Text)
    (purpose : Purpose) (delivered : Bool)
    → ((issue settings fresh now later phone code purpose delivered rows).1 ≡ rows)
      ⊎ ((count (is_recent phone 60000 now) rows ≡ 0)
          × (count (is_recent phone 3600000 now) rows ≤ 4)
          × ((issue settings fresh now later phone code purpose delivered rows).1
              ≡ granted settings fresh later phone code purpose rows))
unfolding issue enforce_per_phone_throttle
issue-cases settings rows fresh now later phone code purpose delivered = ground arith

-- At most one in any minute and five in any hour.
abbrev IsSparse : List Challenge → Type 0
IsSparse rows =
    (phone : Text) (t : ℕ)
    → (count (is_within phone 60000 t) rows ≤ 1) × (count (is_within phone 3600000 t) rows ≤ 5)

granted-IsSparse :
    (settings : Settings) (rows : List Challenge) (fresh now later : ℕ) (asked code : Text)
    (purpose : Purpose)
    → now ≤ later
    → IsSparse rows
    → count (is_recent asked 60000 now) rows ≡ 0
    → count (is_recent asked 3600000 now) rows ≤ 4
    → IsSparse (granted settings fresh later asked code purpose rows)
granted-IsSparse settings rows fresh now later asked code purpose h sparse free room phone t = (
  granted-within settings phone 60000 1 t rows fresh now later asked code purpose h
      (sparse phone t).0 (λ e. rw (sym (at_phone e)) (omega (arith, free))),
  granted-within settings phone 3600000 5 t rows fresh now later asked code purpose h
      (sparse phone t).1 (λ e. rw (sym (at_phone e)) (omega (arith, room))),
)
  where
    at_phone : same_text asked phone ≡ true → asked ≡ phone
    at_phone e = (same_text_iff asked phone).0 e

step-IsSparse :
    (settings : Settings) (rows : List Challenge) (c : Call) (cs : List Call)
    → IsForward (c ∷ cs)
    → IsSparse rows
    → IsSparse (step settings rows c) × IsForward cs
unfolding step
step-IsSparse settings rows (verifies now asked code) cs forward sparse = (
  λ phone t.
      rw (verify-within settings phone 60000 1 t rows now asked code)
        (rw (verify-within settings phone 3600000 5 t rows now asked code) (sparse phone t)),
  forward,
)
step-IsSparse settings rows (issues fresh now later asked code purpose delivered) cs (h, forward)
      sparse =
    (
      elim (issue-cases settings rows fresh now later asked code purpose delivered) [
        | inl same ↦ subst IsSparse (sym same) sparse
        | inr (free, room, written) ↦
            subst IsSparse (sym written)
              (granted-IsSparse settings rows fresh now later asked code purpose h sparse free room)
      ],
      forward,
    )

run-IsSparse :
    (settings : Settings) (rows : List Challenge) (cs : List Call)
    → IsForward cs
    → IsSparse rows
    → IsSparse (run settings rows cs)
unfolding run
run-IsSparse settings rows [] _ sparse = sparse
run-IsSparse settings rows (c ∷ cs) forward sparse =
    let (next, rest) = step-IsSparse settings rows c cs forward sparse in
    run-IsSparse settings (step settings rows c) cs rest next

-- After any calls of `issue` and `verify`, each run to its end before the next, from an empty table
-- and with a clock that does not go back within a call, at most one challenge of a phone number was
-- created in any minute, and at most five in any hour. The calls may be those of any phone numbers,
-- with any codes and at any times, and the deliveries may fail.
pub run_throttled :
    (settings : Settings) (cs : List Call) (phone : Text) (t : ℕ)
    → IsForward cs
    → (count (is_within phone 60000 t) (run settings [] cs) ≤ 1)
      × (count (is_within phone 3600000 t) (run settings [] cs) ≤ 5)
run_throttled settings cs phone t forward =
    run-IsSparse settings [] cs forward (λ _ _. (omega arith, omega arith)) phone t
