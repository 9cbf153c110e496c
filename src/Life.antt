-- ===== src/Life.antt =====
-- apps/core-hub/src/modules/life/life.service.ts: the tree of places of the Life directory.
-- Coordinates and metadata are only stored: their types `F` and `J` are parameters.
pub mod Breadcrumbs
pub mod Cycles
pub mod Storefront
pub mod Subtree
mod Tests
use madinaty_ai_core_mesh.Base.{
  ℕ, zero, suc, ◌+◌, Bool, true, false, not, ◌&&◌, ◌||◌, List, [], ◌∷◌, ◌++◌, Option, none, some,
  ◌==◌, if◌then◌else◌, is_some, or_else, keep_if, length,
}
use madinaty_ai_core_mesh.Base.Text.{Text, is_empty}
use madinaty_ai_core_mesh.Base.Action.{
  Action, Result, ok, err, pure, throw, gets, modify, or_throw, throw_if, ◌>>=◌, ◌>>◌,
}
use madinaty_ai_core_mesh.Base.Table.{Keyed, find, update}

pub data LocationType : Type 0 where
  city district block group park building mall store service_area street parking other :
      LocationType

pub record Location (F J : Type 0) : Type 0 where
  pub id : ℕ
  pub name : Text
  pub name_ar : Text
  pub description : Option Text
  pub description_ar : Option Text
  pub latitude : Option F
  pub longitude : Option F
  pub parent_id : Option ℕ
  pub kind : LocationType
  pub metadata : J

instance abbrev pub location_keyed : {F J : Type 0} → Keyed (Location F J)
location_keyed = record { key = λ l. l.id }

pub data Error : Type 0 where
  location_not_found parent_not_found own_parent row_not_found : Error

-- A parent in a request: left out, the empty string, or an id.
pub data ParentField : Type 0 where
  left_out : ParentField
  empty : ParentField
  under : ℕ → ParentField

pub record LocationInput (F J : Type 0) : Type 0 where
  pub name : Text
  pub name_ar : Text
  pub description : Option Text
  pub description_ar : Option Text
  pub latitude : Option F
  pub longitude : Option F
  pub parent : ParentField
  pub kind : LocationType
  pub metadata : Option J

pub record LocationEdit (F J : Type 0) : Type 0 where
  pub name : Option Text
  pub name_ar : Option Text
  pub description : Option Text
  pub description_ar : Option Text
  pub latitude : Option F
  pub longitude : Option F
  pub parent : ParentField
  pub kind : Option LocationType
  pub metadata : Option J

abbrev pub parent_named : ParentField → Option ℕ
parent_named left_out = none
parent_named empty = none
parent_named (under p) = some p

-- `if (dto.parentId)`, and the look-up of the parent.
abbrev pub is_missing_parent : {F J : Type 0} → ParentField → List (Location F J) → Bool
is_missing_parent (under p) ls = not (is_some (find p ls))
is_missing_parent _ ls = false

-- `dto.x ?? location.x`, and the same for the fields that are tested against `undefined`.
abbrev pub over : {A : Type 0} → Option A → Option A → Option A
over none old = old
over (some a) _ = some a

abbrev pub moved : ParentField → Option ℕ → Option ℕ
moved left_out old = old
moved empty old = none
moved (under p) old = some p

-- `dto.parentId === id`
abbrev pub is_own_parent : ParentField → ℕ → Bool
is_own_parent (under p) id = p == id
is_own_parent _ id = false

module _ {F J : Type 0} where
  abbrev pub new_location : J → ℕ → LocationInput F J → Location F J
  new_location no_metadata fresh dto = record {
    id = fresh;
    name = dto.name;
    name_ar = dto.name_ar;
    description = dto.description;
    description_ar = dto.description_ar;
    latitude = dto.latitude;
    longitude = dto.longitude;
    parent_id = parent_named dto.parent;
    kind = dto.kind;
    metadata = or_else dto.metadata no_metadata;
  }

  unfoldable pub create_location :
      J → ℕ → LocationInput F J → Action Error (List (Location F J)) (Location F J)
  create_location no_metadata fresh dto = do
    missing ← gets λ ls. is_missing_parent dto.parent ls
    throw_if missing parent_not_found
    modify λ ls. ls ++ new_location no_metadata fresh dto ∷ []
    pure (new_location no_metadata fresh dto)

  abbrev pub edit_location : LocationEdit F J → Location F J → Location F J
  edit_location dto l = record l {
    name = or_else dto.name l.name;
    name_ar = or_else dto.name_ar l.name_ar;
    description = over dto.description l.description;
    description_ar = over dto.description_ar l.description_ar;
    latitude = over dto.latitude l.latitude;
    longitude = over dto.longitude l.longitude;
    parent_id = moved dto.parent l.parent_id;
    kind = or_else dto.kind l.kind;
    metadata = or_else dto.metadata l.metadata;
  }

  unfoldable pub update_location :
      ℕ → LocationEdit F J → Action Error (List (Location F J)) (Location F J)
  update_location id dto = do
    row ← gets λ ls. find id ls
    location ← or_throw row location_not_found
    throw_if (is_own_parent dto.parent id) own_parent
    missing ← gets λ ls. is_missing_parent dto.parent ls
    throw_if missing parent_not_found
    modify λ ls. update id (edit_location dto) ls
    pure (edit_location dto location)

  -- The deletion in the database: the row, and then, as the schema's `onDelete: Cascade` asks, each
  -- row whose parent is gone, in as many rounds as there are rows.
  abbrev pub has_parent_in : List (Location F J) → Location F J → Bool
  has_parent_in ls l = elim l.parent_id [ none ↦ true | some p ↦ is_some (find p ls) ]

  unfoldable pub drop_orphans : ℕ → List (Location F J) → List (Location F J)
  drop_orphans zero ls = ls
  drop_orphans (suc rounds) ls = drop_orphans rounds (keep_if (has_parent_in ls) ls)

  unfoldable pub delete_location : ℕ → Action Error (List (Location F J)) (Location F J)
  delete_location id = do
    row ← gets λ ls. find id ls
    location ← or_throw row location_not_found
    modify λ ls. drop_orphans (length ls) (keep_if (λ l. not (l.id == id)) ls)
    pure location
