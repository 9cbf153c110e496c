-- ===== src/Base/Table.antt =====
-- Database tables as lists of rows in creation order, with the queries of the ORM: by primary key,
-- and by a `where` clause.
use Prim.Native.Nat.{ℕ, ◌+◌, ◌≤◌}
use mathlib.Core.Path.{◌≡◌, refl, ◌∙◌, subst}
use mathlib.Core.Logic.{◌≢◌}
use mathlib.Core.Bool.{Bool, true, false}
use mathlib.Core.List.{List, [], ◌∷◌, ◌++◌}
use mathlib.Core.Option.{Option, none, some}
use native.Mathlib.Omega.{arith}
use mathlib.Core.Logic.{inl, inr}
use madinaty_ai_core_mesh.Base.Tests.{bit, ◌==◌, if◌then◌else◌, Bool-cases}
use madinaty_ai_core_mesh.Base.Lists.{count, total, find_first, All}

pub record Keyed (R : Type 0) : Type 0 where
  pub key : R → ℕ

module _ {R : Type 0} ⦃k : Keyed R⦄ where
  abbrev pub key_of : R → ℕ
  key_of = k.key

  -- `findUnique({ where: { id } })`
  unfoldable pub find : ℕ → List R → Option R
  find i [] = none
  find i (r ∷ rs) = if key_of r == i then some r else find i rs

  -- `update({ where: { id }, data })`
  unfoldable pub update : ℕ → (R → R) → List R → List R
  update i f [] = []
  update i f (r ∷ rs) = if key_of r == i then f r ∷ rs else r ∷ update i f rs

  -- `updateMany({ where, data })`
  unfoldable pub update_where : (R → Bool) → (R → R) → List R → List R
  update_where p f [] = []
  update_where p f (r ∷ rs) = (if p r then f r else r) ∷ update_where p f rs

  -- No two rows have the same primary key.
  abbrev pub Distinct : List R → Type 0
  Distinct [] = Unit {0}
  Distinct (r ∷ rs) = (find (key_of r) rs ≡ none) × Distinct rs

  -- What the ORM's `data` objects cannot do: change the primary key.
  abbrev pub KeepsKey : (R → R) → Type 0
  KeepsKey f = (r : R) → key_of (f r) ≡ key_of r

  pub find-key : (i : ℕ) (rs : List R) (r : R) → find i rs ≡ some r → key_of r ≡ i
  unfolding find
  find-key i [] r h = cc
  find-key i (x ∷ rs) r h = ground (arith, find-key i rs r)

  pub find-update_self :
      (i : ℕ) (f : R → R) (rs : List R) (r : R)
      → KeepsKey f
      → find i rs ≡ some r
      → find i (update i f rs) ≡ some (f r)
  unfolding find update
  find-update_self i f [] r kf h = cc
  find-update_self i f (x ∷ rs) r kf h = ground (arith, kf x, find-update_self i f rs r kf)

  pub find-update_ne :
      (i j : ℕ) (f : R → R) (rs : List R) → KeepsKey f → j ≢ i → find j (update i f rs) ≡ find j rs
  unfolding find update
  find-update_ne i j f [] kf ne = refl
  find-update_ne i j f (x ∷ rs) kf ne = ground (arith, kf x, find-update_ne i j f rs kf ne)

  pub find-update_where_out :
      (j : ℕ) (p : R → Bool) (f : R → R) (rs : List R) (r : R)
      → KeepsKey f
      → find j rs ≡ some r
      → p r ≡ false
      → find j (update_where p f rs) ≡ some r
  unfolding find update_where
  find-update_where_out j p f [] r kf h out = cc
  find-update_where_out j p f (x ∷ rs) r kf h out =
      ground (arith, kf x, find-update_where_out j p f rs r kf)

  pub find-update_where_in :
      (j : ℕ) (p : R → Bool) (f : R → R) (rs : List R) (r : R)
      → KeepsKey f
      → find j rs ≡ some r
      → p r ≡ true
      → find j (update_where p f rs) ≡ some (f r)
  unfolding find update_where
  find-update_where_in j p f [] r kf h out = cc
  find-update_where_in j p f (x ∷ rs) r kf h out =
      ground (arith, kf x, find-update_where_in j p f rs r kf)

  pub find-update_where-none :
      (j : ℕ) (p : R → Bool) (f : R → R) (rs : List R)
      → KeepsKey f
      → find j rs ≡ none
      → find j (update_where p f rs) ≡ none
  unfolding find update_where
  find-update_where-none j p f [] kf h = refl
  find-update_where-none j p f (x ∷ rs) kf h =
      ground (arith, kf x, find-update_where-none j p f rs kf)

  pub find-append :
      (j : ℕ) (rs xs : List R) (r : R) → find j rs ≡ some r → find j (rs ++ xs) ≡ some r
  unfolding find
  find-append j [] xs r h = cc
  find-append j (x ∷ rs) xs r h = ground (arith, find-append j rs xs r)

  pub find-append_none : (j : ℕ) (rs xs : List R) → find j rs ≡ none → find j (rs ++ xs) ≡ find j xs
  unfolding find
  find-append_none j [] xs h = refl
  find-append_none j (x ∷ rs) xs h = ground (arith, find-append_none j rs xs)

  -- An update by key moves one row from one side of a test to the other.
  pub count-update :
      (p : R → Bool) (i : ℕ) (f : R → R) (rs : List R) (r : R)
      → find i rs ≡ some r
      → count p (update i f rs) + bit (p r) ≡ count p rs + bit (p (f r))
  unfolding find update
  count-update p i f [] r h = cc
  count-update p i f (x ∷ rs) r h = ground (arith, count-update p i f rs r)

  pub total-update :
      (w : R → ℕ) (i : ℕ) (f : R → R) (rs : List R) (r : R)
      → find i rs ≡ some r
      → total w (update i f rs) + w r ≡ total w rs + w (f r)
  unfolding find update
  total-update w i f [] r h = cc
  total-update w i f (x ∷ rs) r h = ground (arith, total-update w i f rs r)

  pub count-update_blind :
      (p : R → Bool) (i : ℕ) (f : R → R) (rs : List R)
      → ((r : R) → p (f r) ≡ p r)
      → count p (update i f rs) ≡ count p rs
  unfolding update
  count-update_blind p i f [] h = refl
  count-update_blind p i f (x ∷ rs) h = ground (arith, h x, count-update_blind p i f rs h)

  pub count-update_where :
      (p q : R → Bool) (f : R → R) (rs : List R)
      → ((r : R) → q r ≡ true → p (f r) ≡ p r)
      → count p (update_where q f rs) ≡ count p rs
  unfolding update_where
  count-update_where p q f [] h = refl
  count-update_where p q f (x ∷ rs) h = ground (arith, h x, count-update_where p q f rs h)

module _ {ℓ} {R : Type 0} ⦃k : Keyed R⦄ (P : R → Type ℓ) where
  pub All-find : (i : ℕ) (rs : List R) (r : R) → All P rs → find i rs ≡ some r → P r
  unfolding find
  All-find i [] r h e = cc
  All-find i (x ∷ rs) r (px, h) e = ground (arith, px, All-find i rs r h)

  pub All-update :
      (i : ℕ) (f : R → R) (rs : List R)
      → ((r : R) → find i rs ≡ some r → P r → P (f r))
      → All P rs
      → All P (update i f rs)
  unfolding find update
  All-update i f [] step h = tt
  All-update i f (x ∷ rs) step (px, h) = elim (Bool-cases (key_of x == i)) [
    | inl hit ↦ rw hit (step x (rw hit) px, h)
    | inr miss ↦ rw miss (px, All-update i f rs (λ r e. step r (rw miss e)) h)
  ]

All-unit {ℓ} : {A : Type ℓ} (xs : List A) → All (λ _. Unit {0}) xs
All-unit [] = tt
All-unit (_ ∷ xs) = (tt, All-unit xs)

module _ {ℓ κ} {R : Type 0} ⦃k : Keyed R⦄ (P : R → Type ℓ) (Q : R → Type κ) where
  pub All-update_where :
      (q : R → Bool) (f : R → R) (rs : List R)
      → ((r : R) → q r ≡ true → P r → Q (f r))
      → ((r : R) → q r ≡ false → P r → Q r)
      → All P rs
      → All Q (update_where q f rs)
  unfolding update_where
  All-update_where q f [] hit miss h = tt
  All-update_where q f (x ∷ rs) hit miss (px, h) = elim (Bool-cases (q x)) [
    | inl yes_x ↦ rw yes_x (hit x yes_x px, All-update_where q f rs hit miss h)
    | inr no_x ↦ rw no_x (miss x no_x px, All-update_where q f rs hit miss h)
  ]

  All-absent :
      (i : ℕ) (rs : List R)
      → find i rs ≡ none
      → ((x : R) → key_of x ≢ i → P x → Q x)
      → All P rs
      → All Q rs
  unfolding find
  All-absent i [] e old h = tt
  All-absent i (x ∷ rs) e old (px, h) =
      (old x (ground arith) px, All-absent i rs (ground arith) old h)

  -- After an update by key, in a table without duplicate keys: the other rows by their key.
  pub All-update_rest :
      (i : ℕ) (f : R → R) (rs : List R) (r : R)
      → find i rs ≡ some r
      → Q (f r)
      → ((x : R) → key_of x ≢ i → P x → Q x)
      → Distinct rs
      → All P rs
      → All Q (update i f rs)
  unfolding find update
  All-update_rest i f [] r e new old d h = cc
  All-update_rest i f (x ∷ rs) r e new old (dx, d) (px, h) = elim (Bool-cases (key_of x == i)) [
    | inl hit ↦ rw hit (
      subst (λ y. Q (f y)) (ground arith) new,
      All-absent i rs (subst (λ j. find j rs ≡ none) (ground arith) dx) old h,
    )
    | inr miss ↦
        rw miss (old x (ground arith) px, All-update_rest i f rs r (ground arith) new old d h)
  ]

module _ {ℓ} {R : Type 0} ⦃k : Keyed R⦄ (P : R → Type ℓ) where
  -- What holds of the row with a key holds of every row with that key.
  pub All-unique :
      (i : ℕ) (rs : List R) (r : R)
      → find i rs ≡ some r
      → P r
      → Distinct rs
      → All (λ x. key_of x ≡ i → P x) rs
  unfolding find
  All-unique i [] r e h d = tt
  All-unique i (x ∷ rs) r e h (dx, d) = elim (Bool-cases (key_of x == i)) [
    | inl hit ↦ (
      λ _. subst P (ground arith) h,
      All-absent (λ _. Unit {0}) (λ y. key_of y ≡ i → P y) i rs
          (subst (λ j. find j rs ≡ none) (ground arith) dx) (λ y ne _ eq. absurd (ne eq))
          (All-unit rs),
    )
    | inr miss ↦ (λ eq. absurd (ground arith), All-unique i rs r (ground arith) h d)
  ]

module _ {R : Type 0} ⦃k : Keyed R⦄ where
  pub find-update-none :
      (i j : ℕ) (f : R → R) (rs : List R)
      → KeepsKey f
      → find j rs ≡ none
      → find j (update i f rs) ≡ none
  unfolding find update
  find-update-none i j f [] kf h = refl
  find-update-none i j f (x ∷ rs) kf h = ground (arith, kf x, find-update-none i j f rs kf)

  pub update-Distinct :
      (i : ℕ) (f : R → R) (rs : List R) → KeepsKey f → Distinct rs → Distinct (update i f rs)
  unfolding find update
  update-Distinct i f [] kf d = tt
  update-Distinct i f (x ∷ rs) kf (dx, d) = elim (Bool-cases (key_of x == i)) [
    | inl hit ↦ rw (hit, kf x) (dx, d)
    | inr miss ↦ rw miss (find-update-none i (key_of x) f rs kf dx, update-Distinct i f rs kf d)
  ]

  pub update_where-Distinct :
      (p : R → Bool) (f : R → R) (rs : List R)
      → KeepsKey f
      → Distinct rs
      → Distinct (update_where p f rs)
  unfolding update_where
  update_where-Distinct p f [] kf d = tt
  update_where-Distinct p f (x ∷ rs) kf (dx, d) = elim (Bool-cases (p x)) [
    | inl hit ↦
        rw (hit, kf x)
          (find-update_where-none (key_of x) p f rs kf dx, update_where-Distinct p f rs kf d)
    | inr miss ↦
        rw miss (find-update_where-none (key_of x) p f rs kf dx, update_where-Distinct p f rs kf d)
  ]

  pub append-Distinct :
      (rs : List R) (r : R) → find (key_of r) rs ≡ none → Distinct rs → Distinct (rs ++ r ∷ [])
  unfolding find
  append-Distinct [] r e d = (refl, tt)
  append-Distinct (x ∷ rs) r e (dx, d) = (
    find-append_none (key_of x) rs (r ∷ []) dx ∙ ground arith,
    append-Distinct rs r (ground arith) d,
  )

module _ {R : Type 0} ⦃k : Keyed R⦄ where
  -- A row that a test finds is found by its key.
  pub find-first :
      (p : R → Bool) (rs : List R) (r : R)
      → Distinct rs
      → find_first p rs ≡ some r
      → (find (key_of r) rs ≡ some r) × (p r ≡ true)
  unfolding find
  find-first p [] r d e = cc
  find-first p (x ∷ rs) r (dx, d) e = ground (arith, find-first p rs r d)

  -- A row that is found and passes a test is counted.
  pub count-pos_of_find :
      (p : R → Bool) (i : ℕ) (rs : List R) (r : R)
      → find i rs ≡ some r
      → p r ≡ true
      → 1 ≤ count p rs
  unfolding find
  count-pos_of_find p i [] r e h = cc
  count-pos_of_find p i (x ∷ rs) r e h = ground (arith, count-pos_of_find p i rs r)
