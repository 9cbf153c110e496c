-- ===== src/Souk/Favorites/Counting.antt =====
-- The favorites of a user against the counter on the listing.
use madinaty_ai_core_mesh.Base.{
  ℕ, zero, suc, ◌≡◌, refl, sym, ap, ◌∙◌, subst, true, false, not, List, [], ◌∷◌, ◌++◌, some, arith,
  ◌==◌, any, keep_if, inl, inr, Bool-cases,
}
use madinaty_ai_core_mesh.Base.Int.{ℤ, pos, ◌+ℤ◌, ◌-ℤ◌, +ℤ_parts, -ℤ_parts, eq_of_parts}
use madinaty_ai_core_mesh.Base.Table.{find, update, find-update_self}
use madinaty_ai_core_mesh.Souk.{Souk, Listing, Favorite, listing_keyed}
use madinaty_ai_core_mesh.Souk.Favorites.{
  is_favorite, add_favorite, remove_favorite, upsert_favorite, more_row, fewer_row,
}

module _ (user listing : ℕ) where
  keep_others :
      (fs : List Favorite)
      → any (is_favorite user listing) fs ≡ false
      → keep_if
          (λ f. not (is_favorite user listing f))
          (fs ++ record { user_id = user; listing_id = listing } ∷ [])
        ≡ fs
  keep_others [] h = ground arith
  keep_others (f ∷ fs) h = ground (arith, keep_others fs)

  any_last :
      (fs : List Favorite)
      → any (is_favorite user listing) (fs ++ record { user_id = user; listing_id = listing } ∷ [])
        ≡ true
  any_last [] = ground arith
  any_last (f ∷ fs) = ground (arith, any_last fs)

one_back : (a : ℤ) → (a +ℤ pos 1) -ℤ pos 1 ≡ a
one_back a =
    eq_of_parts ((a +ℤ pos 1) -ℤ pos 1) a
      (omega (arith, +ℤ_parts a (pos 1), -ℤ_parts (a +ℤ pos 1) (pos 1)))

fewer_more : (id : ℕ) (ls : List Listing) → update id fewer_row (update id more_row ls) ≡ ls
unfolding update
fewer_more id [] = refl
fewer_more id (l ∷ ls) = elim (Bool-cases (l.id == id)) [
  | inl hit ↦
      rw (hit, hit) (ap (λ c. record l { favorite_count = c } ∷ ls) (one_back l.favorite_count))
  | inr miss ↦ rw (miss, miss) (ap (λ ms. l ∷ ms) (fewer_more id ls))
]

-- Where the user has not marked the listing, removing the mark after adding it restores the
-- favorites and every listing, the counter included.
pub remove-add_favorite :
    (user listing : ℕ) (s : Souk) (l : Listing)
    → find listing s.listings ≡ some l
    → any (is_favorite user listing) s.favorites ≡ false
    → let t = (remove_favorite user listing (add_favorite user listing s).1).1 in
      (t.favorites ≡ s.favorites) × (t.listings ≡ s.listings)
unfolding remove_favorite add_favorite upsert_favorite
remove-add_favorite user listing s l e h = (
  ground (arith, keep_others user listing s.favorites h, any_last user listing s.favorites),
  ground (arith, any_last user listing s.favorites, fewer_more listing s.listings),
)

-- The same user adds the same mark `n` times.
abbrev pub add_times : ℕ → ℕ → ℕ → Souk → Souk
add_times zero user listing s = s
add_times (suc n) user listing s = add_times n user listing (add_favorite user listing s).1

-- The counter of the listing stands at `count`.
abbrev pub IsCounted : ℕ → ℤ → Souk → Type 0
IsCounted listing count s =
    (l : Listing) × (find listing s.listings ≡ some l) × (l.favorite_count ≡ count)

sum_suc : (a : ℤ) (n : ℕ) → (a +ℤ pos 1) +ℤ pos n ≡ a +ℤ pos (suc n)
sum_suc a n =
    eq_of_parts ((a +ℤ pos 1) +ℤ pos n) (a +ℤ pos (suc n))
      (omega (arith, +ℤ_parts (a +ℤ pos 1) (pos n), +ℤ_parts a (pos 1), +ℤ_parts a (pos (suc n))))

add-0 : (a : ℤ) → a +ℤ pos 0 ≡ a
add-0 a = eq_of_parts (a +ℤ pos 0) a (omega (arith, +ℤ_parts a (pos 0)))

take_back : (a : ℤ) (n : ℕ) → (a +ℤ pos (suc n)) -ℤ pos 1 ≡ a +ℤ pos n
take_back a n = eq_of_parts ((a +ℤ pos (suc n)) -ℤ pos 1) (a +ℤ pos n) (
    omega
      (arith, -ℤ_parts (a +ℤ pos (suc n)) (pos 1), +ℤ_parts a (pos (suc n)), +ℤ_parts a (pos n)))

module _ (user listing : ℕ) where
  add-IsCounted :
      (c : ℤ) (s : Souk)
      → IsCounted listing c s
      → IsCounted listing (c +ℤ pos 1) (add_favorite user listing s).1
  unfolding add_favorite
  add-IsCounted c s (l, e, same) = (
    more_row l,
    ground (arith, find-update_self listing more_row s.listings l (λ _. refl) e),
    ap (λ b. b +ℤ pos 1) same,
  )

  add_marks :
      (s : Souk) (l : Listing)
      → find listing s.listings ≡ some l
      → (add_favorite user listing s).1.favorites ≡ upsert_favorite user listing s.favorites
  unfolding add_favorite
  add_marks s l e = ground arith

  add_times_again :
      (n : ℕ) (c : ℤ) (s : Souk)
      → IsCounted listing c s
      → any (is_favorite user listing) s.favorites ≡ true
      → ((add_times n user listing s).favorites ≡ s.favorites)
        × IsCounted listing (c +ℤ pos n) (add_times n user listing s)
  unfolding upsert_favorite
  add_times_again zero c s (l, e, same) h = (refl, (l, e, same ∙ sym (add-0 c)))
  add_times_again (suc n) c s counted h =
      let next = (add_favorite user listing s).1 in
      let kept : next.favorites ≡ s.favorites =
        add_marks s counted.0 counted.1 ∙ ground (arith, h) in
      let (marks, more) =
        add_times_again n (c +ℤ pos 1) next (add-IsCounted c s counted)
          (ap (any (is_favorite user listing)) kept ∙ h) in
      (
        marks ∙ kept,
        subst (λ x. IsCounted listing x (add_times n user listing next)) (sum_suc c n) more,
      )

  remove-IsCounted :
      (c : ℤ) (s : Souk)
      → any (is_favorite user listing) s.favorites ≡ true
      → IsCounted listing c s
      → IsCounted listing (c -ℤ pos 1) (remove_favorite user listing s).1
  unfolding remove_favorite
  remove-IsCounted c s h (l, e, same) = (
    fewer_row l,
    ground (arith, find-update_self listing fewer_row s.listings l (λ _. refl) e),
    ap (λ b. b -ℤ pos 1) same,
  )

  remove_unmarks :
      (fs : List Favorite) (s : Souk)
      → any (is_favorite user listing) fs ≡ false
      → s.favorites ≡ fs ++ record { user_id = user; listing_id = listing } ∷ []
      → (remove_favorite user listing s).1.favorites ≡ fs
  unfolding remove_favorite
  remove_unmarks fs s h e = ground (arith, keep_others user listing fs h, any_last user listing fs)

-- A user who has not marked a listing marks it once and then `n` times more, and takes the mark
-- back: the favorites are as they were, and yet the listing's counter stands `n` above what it was.
pub add_favorite_again :
    (n user listing : ℕ) (s : Souk) (l : Listing)
    → find listing s.listings ≡ some l
    → any (is_favorite user listing) s.favorites ≡ false
    → let t = (remove_favorite user listing (add_times (suc n) user listing s)).1 in
      (t.favorites ≡ s.favorites) × IsCounted listing (l.favorite_count +ℤ pos n) t
unfolding upsert_favorite
add_favorite_again n user listing s l e h =
    let marked = (add_favorite user listing s).1 in
    let once : marked.favorites
        ≡ s.favorites ++ record { user_id = user; listing_id = listing } ∷ [] =
      add_marks user listing s l e ∙ ground (arith, h) in
    let there : any (is_favorite user listing) marked.favorites ≡ true =
      ap (any (is_favorite user listing)) once ∙ any_last user listing s.favorites in
    let (marks, counted) =
      add_times_again user listing n (l.favorite_count +ℤ pos 1) marked
        (add-IsCounted user listing l.favorite_count s (l, e, refl)) there in
    let last = add_times n user listing marked in
    (
      remove_unmarks user listing s.favorites last h (marks ∙ once),
      subst (λ x. IsCounted listing x (remove_favorite user listing last).1)
          (ap (λ x. x -ℤ pos 1) (sum_suc l.favorite_count n) ∙ take_back l.favorite_count n)
          (remove-IsCounted user listing ((l.favorite_count +ℤ pos 1) +ℤ pos n) last
            (ap (any (is_favorite user listing)) marks ∙ there) counted),
    )
