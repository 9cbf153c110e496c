-- ===== src/Life/Tests.antt =====
-- Two places, of which the second stands under the first, and then the other way round as well.
use madinaty_ai_core_mesh.Base.{
  ℕ, ◌+◌, ◌≡◌, refl, arith, true, Option, none, some, is_some, List, [], ◌∷◌,
}
use madinaty_ai_core_mesh.Base.Action.{ok}
use madinaty_ai_core_mesh.Base.Table.{find}
use madinaty_ai_core_mesh.Life.{Location, LocationEdit, under, city, edit_location, update_location}
use madinaty_ai_core_mesh.Life.Breadcrumbs.{get_location, get_location_ends}
use madinaty_ai_core_mesh.Life.Cycles.{update_location_cycle}

abbrev place : ℕ → Option ℕ → Location ℕ ℕ
place id parent = record {
  id = id;
  name = [];
  name_ar = [];
  description = none;
  description_ar = none;
  latitude = none;
  longitude = none;
  parent_id = parent;
  kind = city;
  metadata = 0;
}

abbrev move : ℕ → LocationEdit ℕ ℕ
move p = record {
  name = none;
  name_ar = none;
  description = none;
  description_ar = none;
  latitude = none;
  longitude = none;
  parent = under p;
  kind = none;
  metadata = none;
}

abbrev as_it_is : List (Location ℕ ℕ) → List (Location ℕ ℕ)
as_it_is ls = ls

get_location_ends_example :
    is_some (get_location as_it_is (2 + 1) 2 (place 1 none ∷ place 2 (some 1) ∷ [])) ≡ true
unfolding find
get_location_ends_example =
    get_location_ends as_it_is (λ id. id) (place 1 none ∷ place 2 (some 1) ∷ []) 2
      (λ id p l e up there. ground arith)

update_location_cycle_example :
    let first = update_location 1 (move 2) (place 1 none ∷ place 2 none ∷ []) in
    let second = update_location 2 (move 1) first.1 in
    (first.0 ≡ ok (edit_location (move 2) (place 1 none)))
    × (second.0 ≡ ok (edit_location (move 1) (place 2 none)))
    × ((by_name : List (Location ℕ ℕ) → List (Location ℕ ℕ)) (fuel : ℕ)
        → get_location by_name fuel 1 second.1 ≡ none)
unfolding find
update_location_cycle_example =
    update_location_cycle 1 2 (place 1 none) (place 2 none) (move 2) (move 1)
      (place 1 none ∷ place 2 none ∷ []) (λ e. ground arith) refl refl refl refl
