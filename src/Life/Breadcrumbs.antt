-- ===== src/Life/Breadcrumbs.antt =====
-- The look-ups of life.service.ts: `getLocation` with its path of ancestors, and `listLocations`.
-- The walk to the ancestors has fuel, and runs out of it with `none`.
use madinaty_ai_core_mesh.Base.{
  ℕ, zero, suc, ◌+◌, ◌≤◌, ◌<◌, ◌≡◌, refl, ap, arith, inl, inr, Bool, true, false, not, ◌&&◌, ◌||◌,
  List, [], ◌∷◌, Option, none, some, ◌==◌, is_some, keep_if, Option-cases,
}
use madinaty_ai_core_mesh.Base.Text.{Text, is_empty}
use madinaty_ai_core_mesh.Base.Action.{Result, ok, err}
use madinaty_ai_core_mesh.Base.Table.{find}
use madinaty_ai_core_mesh.Life.{Location, LocationType, Error, location_not_found, location_keyed}

pub record Crumb : Type 0 where
  pub id : ℕ
  pub name : Text
  pub name_ar : Text
  pub kind : LocationType

pub record LocationView (F J : Type 0) : Type 0 where
  pub location : Location F J
  pub children : List (Location F J)
  pub breadcrumbs : List Crumb

-- `where` of `listLocations`: `some none` asks for the places without a parent.
pub record LocationFilter : Type 0 where
  pub q : Text
  pub parent : Option (Option ℕ)
  pub kind : Option LocationType

module _ {F J : Type 0} where
  abbrev pub crumb_of : Location F J → Crumb
  crumb_of l = record { id = l.id; name = l.name; name_ar = l.name_ar; kind = l.kind }

  -- The ancestors of a row, root first, in front of those found below it.
  unfoldable pub ancestors : ℕ → List (Location F J) → Option ℕ → List Crumb → Option (List Crumb)
  ancestors zero ls parent below = none
  ancestors (suc fuel) ls none below = some below
  ancestors (suc fuel) ls (some p) below = elim (find p ls) [
    | none ↦ some below
    | some l ↦ ancestors fuel ls l.parent_id (crumb_of l ∷ below)
  ]

  -- The rows with this parent; `none` asks for those without one.
  abbrev pub is_child_of : Option ℕ → Location F J → Bool
  is_child_of none l = not (is_some l.parent_id)
  is_child_of (some p) l = elim l.parent_id [ none ↦ false | some q ↦ q == p ]

  -- `by_name` is the database's `orderBy: { name: 'asc' }`.
  unfoldable pub get_location :
      (List (Location F J) → List (Location F J))
      → ℕ
      → ℕ
      → List (Location F J)
      → Option (Result Error (LocationView F J))
  get_location by_name fuel id ls = elim (find id ls) [
    | none ↦ some (err location_not_found)
    | some l ↦ elim (ancestors fuel ls l.parent_id []) [
      | none ↦ none
      | some crumbs ↦ some (
          ok (record {
            location = l;
            children = by_name (keep_if (is_child_of (some id)) ls);
            breadcrumbs = crumbs;
          }))
    ]
  ]

  -- `contains` is the database's case-insensitive one, `same_kind` its equality, and
  -- `by_type_and_name` its order.
  unfoldable pub list_locations :
      (Text → Text → Bool)
      → (LocationType → LocationType → Bool)
      → (List (Location F J) → List (Location F J))
      → LocationFilter
      → List (Location F J)
      → List (Location F J)
  list_locations contains same_kind by_type_and_name p ls = by_type_and_name (
      keep_if
        (λ l.
          elim p.parent [ none ↦ true | some parent ↦ is_child_of parent l ]
          && elim p.kind [ none ↦ true | some k ↦ same_kind l.kind k ]
          && (is_empty p.q || contains p.q l.name || contains p.q l.name_ar))
        ls)

  -- Every row's parent, where it is there, has a smaller rank than the row.
  abbrev pub IsRanked : (ℕ → ℕ) → List (Location F J) → Type 0
  IsRanked rank ls =
      (id p : ℕ) (l : Location F J)
      → find id ls ≡ some l
      → l.parent_id ≡ some p
      → is_some (find p ls) ≡ true
      → rank p < rank id

  root_ends :
      (fuel : ℕ) (ls : List (Location F J)) (below : List Crumb)
      → 1 ≤ fuel
      → is_some (ancestors fuel ls none below) ≡ true
  unfolding ancestors
  root_ends zero ls below k = absurd (omega (arith, k))
  root_ends (suc fuel) ls below k = refl

  gone_ends :
      (fuel q : ℕ) (ls : List (Location F J)) (below : List Crumb)
      → 1 ≤ fuel
      → find q ls ≡ none
      → is_some (ancestors fuel ls (some q) below) ≡ true
  unfolding ancestors
  gone_ends zero q ls below k gone = absurd (omega (arith, k))
  gone_ends (suc fuel) q ls below k gone = ground (arith, gone)

  pub found_step :
      (fuel q : ℕ) (ls : List (Location F J)) (m : Location F J) (below : List Crumb)
      → find q ls ≡ some m
      → ancestors (suc fuel) ls (some q) below ≡ ancestors fuel ls m.parent_id (crumb_of m ∷ below)
  unfolding ancestors
  found_step fuel q ls m below e = ground (arith, e)

  ancestors_end :
      (rank : ℕ → ℕ) (ls : List (Location F J)) (fuel id : ℕ) (l : Location F J)
      (below : List Crumb)
      → IsRanked rank ls
      → find id ls ≡ some l
      → rank id + 1 ≤ fuel
      → is_some (ancestors fuel ls l.parent_id below) ≡ true
  ancestors_end rank ls zero id l below ranked e h = absurd (omega (arith, h))
  ancestors_end rank ls (suc fuel) id l below ranked e h = elim (Option-cases l.parent_id) [
    | inl root ↦ rw root (root_ends (suc fuel) ls below (omega arith))
    | inr (q, up) ↦ elim (Option-cases (find q ls)) [
      | inl gone ↦ rw up (gone_ends (suc fuel) q ls below (omega arith) gone)
      | inr (m, there) ↦
          rw (up, found_step fuel q ls m below there)
            (ancestors_end rank ls fuel q m (crumb_of m ∷ below) ranked there
              (omega (arith, h, ranked id q l e up (ap is_some there))))
    ]
  ]

  -- `getLocation` ends where the parents do not go round: if each place's parent that is there has
  -- a smaller rank than the place, fuel of one more than the rank of the place asked for is enough
  -- for the look-up to return or throw, whatever the order of the children.
  pub get_location_ends :
      (by_name : List (Location F J) → List (Location F J)) (rank : ℕ → ℕ)
      (ls : List (Location F J)) (id : ℕ)
      → IsRanked rank ls
      → is_some (get_location by_name (rank id + 1) id ls) ≡ true
  unfolding get_location
  get_location_ends by_name rank ls id ranked = elim (Option-cases (find id ls)) [
    | inl e ↦ ground (arith, e)
    | inr (l, e) ↦
        ground (arith, e, ancestors_end rank ls (rank id + 1) id l [] ranked e (omega arith))
  ]
