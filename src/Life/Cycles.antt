-- ===== src/Life/Cycles.antt =====
-- Two moves in the tree of places that put each of two places under the other.
use madinaty_ai_core_mesh.Base.{
  ℕ, zero, suc, ◌≡◌, ◌≢◌, refl, sym, ap, ◌∙◌, arith, List, [], ◌∷◌, none, some, ==_iff,
}
use madinaty_ai_core_mesh.Base.Action.{ok}
use madinaty_ai_core_mesh.Base.Table.{find, update, find-update_self, find-update_ne}
use madinaty_ai_core_mesh.Life.{
  Location, LocationEdit, under, location_keyed, moved, edit_location, update_location,
}
use madinaty_ai_core_mesh.Life.Breadcrumbs.{Crumb, crumb_of, ancestors, get_location, found_step}

module _ {F J : Type 0} where
  goes_round :
      (fuel p q : ℕ) (ls : List (Location F J)) (l m : Location F J) (below : List Crumb)
      → find p ls ≡ some l
      → l.parent_id ≡ some q
      → find q ls ≡ some m
      → m.parent_id ≡ some p
      → ancestors fuel ls (some p) below ≡ none
  unfolding ancestors
  goes_round zero p q ls l m below e up f back = refl
  goes_round (suc fuel) p q ls l m below e up f back =
      found_step fuel p ls l below e
      ∙ ap (λ o. ancestors fuel ls o (crumb_of l ∷ below)) up
      ∙ goes_round fuel q p ls m l (crumb_of l ∷ below) f back e up

  moves :
      (id p : ℕ) (dto : LocationEdit F J) (ls : List (Location F J)) (l m : Location F J)
      → dto.parent ≡ under p
      → find id ls ≡ some l
      → find p ls ≡ some m
      → p ≢ id
      → update_location id dto ls ≡ (ok (edit_location dto l), update id (edit_location dto) ls)
  unfolding update_location
  moves id p dto ls l m e f g ne = ground (arith, e, f, g, (==_iff p id).0)

  get_location_round :
      (by_name : List (Location F J) → List (Location F J)) (fuel a b : ℕ)
      (ls : List (Location F J)) (l m : Location F J)
      → find a ls ≡ some l
      → l.parent_id ≡ some b
      → find b ls ≡ some m
      → m.parent_id ≡ some a
      → get_location by_name fuel a ls ≡ none
  unfolding get_location
  get_location_round by_name fuel a b ls l m e up f back =
      ground (arith, e, up, goes_round fuel b a ls m l [] f back e up)

  -- `updateLocation` lets the parents go round, and `getLocation` then never ends: for any two
  -- different places of the table, moving the first under the second and then the second under the
  -- first succeeds both times, and after that no fuel is enough for the look-up of the first.
  pub update_location_cycle :
      (a b : ℕ) (x y : Location F J) (to_b to_a : LocationEdit F J) (ls : List (Location F J))
      → a ≢ b
      → find a ls ≡ some x
      → find b ls ≡ some y
      → to_b.parent ≡ under b
      → to_a.parent ≡ under a
      → let first = update_location a to_b ls in
        let second = update_location b to_a first.1 in
        (first.0 ≡ ok (edit_location to_b x))
        × (second.0 ≡ ok (edit_location to_a y))
        × ((by_name : List (Location F J) → List (Location F J)) (fuel : ℕ)
            → get_location by_name fuel a second.1 ≡ none)
  update_location_cycle a b x y to_b to_a ls ne e f at_b at_a =
      let moved_a = moves a b to_b ls x y at_b e f (λ h. ne (sym h)) in
      let ls1 : List (Location F J) = update a (edit_location to_b) ls in
      let a_there : find a ls1 ≡ some (edit_location to_b x) =
        find-update_self a (edit_location to_b) ls x (λ _. refl) e in
      let b_there : find b ls1 ≡ some y =
        find-update_ne a b (edit_location to_b) ls (λ _. refl) (λ h. ne (sym h)) ∙ f in
      let moved_b = moves b a to_a ls1 y (edit_location to_b x) at_a b_there a_there ne in
      let ls2 : List (Location F J) = update b (edit_location to_a) ls1 in
      let a_still : find a ls2 ≡ some (edit_location to_b x) =
        find-update_ne b a (edit_location to_a) ls1 (λ _. refl) ne ∙ a_there in
      let b_still : find b ls2 ≡ some (edit_location to_a y) =
        find-update_self b (edit_location to_a) ls1 y (λ _. refl) b_there in
      rw (moved_a, moved_b)
        (
          refl,
          refl,
          λ by_name fuel.
              get_location_round by_name fuel a b ls2 (edit_location to_b x) (edit_location to_a y)
                a_still (ap (λ p. moved p x.parent_id) at_b) b_still
                (ap (λ p. moved p y.parent_id) at_a),
        )
