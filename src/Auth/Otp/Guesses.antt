-- ===== src/Auth/Otp/Guesses.antt =====
-- How many codes can be tried against a challenge: the attempts of `verify`.
use madinaty_ai_core_mesh.Base.{
  ℕ, ◌+◌, ◌-◌, ◌≤◌, ◌≡◌, refl, sym, arith, inl, inr, ◌⊎◌, subst, Bool, true, false, ◌&&◌, none,
  some, leb, if◌then◌else◌, List, [], ◌∷◌, ◌++◌, bit, count, total, total-append, keep_if,
  Option-cases, or_else,
}
use madinaty_ai_core_mesh.Base.Text.{Text}
use madinaty_ai_core_mesh.Base.Action.{Result, ok, err}
use madinaty_ai_core_mesh.Base.Table.{
  find, update, update_where, Distinct, total-update, update-Distinct, update_where-Distinct,
  append-Distinct, find-update_where-none,
}
use madinaty_ai_core_mesh.Auth.Otp.{
  Challenge, Purpose, Settings, Error, incorrect_otp, challenge_keyed, issue,
  enforce_per_phone_throttle, verify, verify_against, is_pending, retire, consume, count_attempt,
  new_challenge, newest, is_open, is_dev_bypass,
}

-- Requests to verify codes for one phone number, each at its time.
unfoldable pub verify_all :
    Settings → Text → List (ℕ × Text) → List Challenge → List (Result Error Bool)
verify_all settings phone [] rows = []
verify_all settings phone ((now, code) ∷ asked) rows =
    let (answer, after) = verify settings now phone code rows in
    answer ∷ verify_all settings phone asked after

-- The code was compared with the digest of the challenge.
abbrev pub is_guess : Result Error Bool → Bool
is_guess (ok _) = true
is_guess (err incorrect_otp) = true
is_guess (err _) = false

abbrev pub is_success : Result Error Bool → Bool
is_success (ok _) = true
is_success (err _) = false

-- The times come after `t` and do not go back.
abbrev pub IsAfter : ℕ → List (ℕ × Text) → Type 0
IsAfter t [] = Unit {0}
IsAfter t ((now, _) ∷ asked) = (t ≤ now) × IsAfter now asked

-- None of the codes is the developers' one.
abbrev pub IsPlain : Settings → List (ℕ × Text) → Type 0
IsPlain settings [] = Unit {0}
IsPlain settings ((_, code) ∷ asked) =
    (is_dev_bypass settings code ≡ false) × IsPlain settings asked

newest-find :
    (p : Challenge → Bool) (rows : List Challenge) (c : Challenge)
    → Distinct rows
    → newest (keep_if p rows) ≡ some c
    → (find c.id rows ≡ some c) × (p c ≡ true)
unfolding find
newest-find p [] c d e = cc
newest-find p (x ∷ rows) c (dx, d) e = elim (Option-cases (newest (keep_if p rows))) [
  | inl none_left ↦ ground arith
  | inr (b, found) ↦ ground (arith, newest-find p rows b d found)
]

abbrev is_usable : Text → ℕ → Challenge → Bool
is_usable phone t c = is_open phone c && leb t c.expires_at

-- The guesses that a challenge still allows, and the successes.
abbrev room : ℕ → Text → ℕ → Challenge → ℕ
room max phone t c = if is_usable phone t c then max - c.attempts else 0

abbrev one : Text → ℕ → Challenge → ℕ
one phone t c = bit (is_usable phone t c)

room-later :
    (max : ℕ) (phone : Text) (t now : ℕ) (rows : List Challenge)
    → t ≤ now
    → (total (room max phone now) rows ≤ total (room max phone t) rows)
      × (total (one phone now) rows ≤ total (one phone t) rows)
room-later max phone t now [] h = (omega arith, omega arith)
room-later max phone t now (c ∷ rows) h = ground (arith, room-later max phone t now rows h)

module _ (settings : Settings) (phone code : Text) (now : ℕ) where
  pub verify-room :
      (rows : List Challenge)
      → Distinct rows
      → is_dev_bypass settings code ≡ false
      → let r = verify settings now phone code rows in
        let max = or_else settings.otp_max_attempts 5 in
        (bit (is_guess r.0) + total (room max phone now) r.1 ≤ total (room max phone now) rows)
        × (bit (is_success r.0) + total (one phone now) r.1 ≤ total (one phone now) rows)
  unfolding verify verify_against
  verify-room rows d plain = elim (Option-cases (newest (keep_if (is_open phone) rows))) [
    | inl e ↦ ground arith
    | inr (c, e) ↦
        let (f, o) = newest-find (is_open phone) rows c d e in
        let max = or_else settings.otp_max_attempts 5 in
        ground (
          arith,
          f,
          o,
          total-update (room max phone now) c.id (consume now) rows c f,
          total-update (room max phone now) c.id (count_attempt c.attempts) rows c f,
          total-update (one phone now) c.id (consume now) rows c f,
          total-update (one phone now) c.id (count_attempt c.attempts) rows c f,
        )
  ]

  against_rows :
      (c : Challenge) (rows : List Challenge)
      → let after = (verify_against settings now phone code c rows).1 in
        (after ≡ rows)
        ⊎ ((after ≡ update c.id (consume now) rows)
            ⊎ (after ≡ update c.id (count_attempt c.attempts) rows))
  unfolding verify_against
  against_rows c rows = ground arith

  against-Distinct :
      (c : Challenge) (rows : List Challenge)
      → Distinct rows
      → Distinct (verify_against settings now phone code c rows).1
  against-Distinct c rows d = elim (against_rows c rows) [
    | inl same ↦ subst Distinct (sym same) d
    | inr (inl used) ↦
        subst Distinct (sym used) (update-Distinct c.id (consume now) rows (λ _. refl) d)
    | inr (inr tried) ↦
        subst Distinct (sym tried)
          (update-Distinct c.id (count_attempt c.attempts) rows (λ _. refl) d)
  ]

  verify-Distinct :
      (rows : List Challenge)
      → Distinct rows
      → is_dev_bypass settings code ≡ false
      → Distinct (verify settings now phone code rows).1
  unfolding verify
  verify-Distinct rows d plain = elim (Option-cases (newest (keep_if (is_open phone) rows))) [
    | inl e ↦ rw (plain, e) d
    | inr (c, e) ↦ rw (plain, e) (against-Distinct c rows d)
  ]

module _ (settings : Settings) (phone : Text) where
  verify_all-room :
      (t : ℕ) (asked : List (ℕ × Text)) (rows : List Challenge)
      → Distinct rows
      → IsAfter t asked
      → IsPlain settings asked
      → let answers = verify_all settings phone asked rows in
        let max = or_else settings.otp_max_attempts 5 in
        (count is_guess answers ≤ total (room max phone t) rows)
        × (count is_success answers ≤ total (one phone t) rows)
  unfolding verify_all
  verify_all-room t [] rows d _ _ = (omega arith, omega arith)
  verify_all-room t ((now, code) ∷ asked) rows d (h, after) (plain, plains) =
      let max = or_else settings.otp_max_attempts 5 in
      let (guess, success) = verify-room settings phone code now rows d plain in
      let (guesses, successes) =
        verify_all-room now asked (verify settings now phone code rows).1
          (verify-Distinct settings phone code now rows d plain) after plains in
      let (fewer, less) = room-later max phone t now rows h in
      (omega (arith, guess, guesses, fewer), omega (arith, success, successes, less))

-- After `issue` no older challenge of the number can be used.
retired-room :
    (max : ℕ) (phone : Text) (now later : ℕ) (rows : List Challenge)
    → total (room max phone (later + 1)) (update_where (is_pending phone later) (retire now) rows)
        ≡ 0
      × total (one phone (later + 1)) (update_where (is_pending phone later) (retire now) rows) ≡ 0
unfolding update_where
retired-room max phone now later [] = (refl, refl)
retired-room max phone now later (c ∷ rows) = ground (arith, retired-room max phone now later rows)

-- The rows that `issue` leaves when it returned.
pub issued :
    (settings : Settings) (rows : List Challenge) (fresh now later : ℕ) (phone code : Text)
    (purpose : Purpose) (delivered : Bool)
    → (issue settings fresh now later phone code purpose delivered rows).0 ≡ ok tt
    → (issue settings fresh now later phone code purpose delivered rows).1
      ≡ update_where (is_pending phone later) (retire later) rows
        ++ new_challenge settings fresh later phone code purpose ∷ []
unfolding issue enforce_per_phone_throttle
issued settings rows fresh now later phone code purpose delivered h = ground arith

issued-Distinct :
    (settings : Settings) (rows : List Challenge) (fresh later : ℕ) (phone code : Text)
    (purpose : Purpose)
    → Distinct rows
    → find fresh rows ≡ none
    → Distinct (
        update_where (is_pending phone later) (retire later) rows
        ++ new_challenge settings fresh later phone code purpose ∷ [])
issued-Distinct settings rows fresh later phone code purpose d new =
    append-Distinct (update_where (is_pending phone later) (retire later) rows)
      (new_challenge settings fresh later phone code purpose)
      (find-update_where-none fresh (is_pending phone later) (retire later) rows (λ _. refl) new)
      (update_where-Distinct (is_pending phone later) (retire later) rows (λ _. refl) d)

-- A challenge that `issue` returned for withstands guessing, whatever the table held before,
-- provided its ids are distinct and the new row's is not among them: however many requests to
-- verify codes of that phone number follow, at later times that do not go back, with no further
-- issue for it and none of the codes the developers' one, at most `otpMaxAttempts` (5 by default)
-- of them compare their code with the challenge, and at most one succeeds.
pub issue-verify_all :
    (settings : Settings) (rows : List Challenge) (fresh now later : ℕ) (phone code : Text)
    (purpose : Purpose) (delivered : Bool) (asked : List (ℕ × Text))
    → Distinct rows
    → find fresh rows ≡ none
    → (issue settings fresh now later phone code purpose delivered rows).0 ≡ ok tt
    → IsAfter (later + 1) asked
    → IsPlain settings asked
    → let answers =
        verify_all settings phone asked
          (issue settings fresh now later phone code purpose delivered rows).1 in
      (count is_guess answers ≤ or_else settings.otp_max_attempts 5)
      × (count is_success answers ≤ 1)
issue-verify_all settings rows fresh now later phone code purpose delivered asked d new h after
      plain =
    rw (issued settings rows fresh now later phone code purpose delivered h)
      (omega (arith, both.0, sums.0), omega (arith, both.1, sums.1))
  where
    max : ℕ
    max = or_else settings.otp_max_attempts 5

    old : List Challenge
    old = update_where (is_pending phone later) (retire later) rows

    row : Challenge
    row = new_challenge settings fresh later phone code purpose

    both :
        (count is_guess (verify_all settings phone asked (old ++ row ∷ []))
          ≤ total (room max phone (later + 1)) (old ++ row ∷ []))
        × (count is_success (verify_all settings phone asked (old ++ row ∷ []))
            ≤ total (one phone (later + 1)) (old ++ row ∷ []))
    both =
        verify_all-room settings phone (later + 1) asked (old ++ row ∷ [])
          (issued-Distinct settings rows fresh later phone code purpose d new) after plain

    sums :
        (total (room max phone (later + 1)) (old ++ row ∷ []) ≤ max)
        × (total (one phone (later + 1)) (old ++ row ∷ []) ≤ 1)
    sums = ground (
      arith,
      retired-room max phone later later rows,
      total-append (room max phone (later + 1)) old (row ∷ []),
      total-append (one phone (later + 1)) old (row ∷ []),
    )
