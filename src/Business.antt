-- ===== src/Business.antt =====
-- libs/business/src/business.service.ts: the kitchens and the tutors of the two tenants that have
-- businesses. Branding, opening hours and subjects are JSON that is only stored: its type `J` is a
-- parameter, as is the parser of the subjects. The database refuses the update of a row that is not
-- there.
pub mod Menu
pub mod Slugs
pub mod Routing
pub mod Approval
mod Tests
use mathlib.Core.List.{reverse}
use madinaty_ai_core_mesh.Base.{
  ℕ, Bool, true, false, not, ◌||◌, List, [], ◌∷◌, ◌++◌, Option, none, some, ◌==◌, if◌then◌else◌,
  is_some, or_else, find_first, keep_if,
}
use madinaty_ai_core_mesh.Base.Text.{Text, same_text, truthy}
use madinaty_ai_core_mesh.Base.Action.{
  Action, pure, throw, gets, modify, or_throw, throw_if, ◌>>=◌, ◌>>◌,
}
use madinaty_ai_core_mesh.Base.Table.{Keyed, find, update}

pub data BusinessTenant : Type 0 where
  kitchen tutor : BusinessTenant

-- `status`, which only kitchens have; a tutor's stays pending here.
pub data ApprovalStatus : Type 0 where
  pending approved rejected : ApprovalStatus

-- A row of either table; the cuisine is the kitchens', qualifications and subjects the tutors'.
pub record Business (J : Type 0) : Type 0 where
  pub id : ℕ
  pub owner_global_user_id : ℕ
  pub slug : Text
  pub name : Text
  pub is_active : Bool
  pub status : ApprovalStatus
  pub branding : J
  pub description : Option Text
  pub address : Option Text
  pub phone : Option Text
  pub opening_hours : Option J
  pub cuisine_type : Option Text
  pub qualifications : Option Text
  pub subjects : Option J

instance abbrev pub business_keyed : {J : Type 0} → Keyed (Business J)
business_keyed = record { key = λ b. b.id }

pub record MenuItem (F : Type 0) : Type 0 where
  pub id : ℕ
  pub business_id : ℕ
  pub title : Text
  pub description : Option Text
  pub price : Option F
  pub category : Option Text
  pub image_url : Option Text
  pub is_available : Bool
  pub schedule_type : Text

pub record Businesses (F J : Type 0) : Type 0 where
  pub kitchens : List (Business J)
  pub tutors : List (Business J)
  pub menu_items : List (MenuItem F)

pub data Error : Type 0 where
  duplicate_slug : Text → Error
  business_not_found : Text → Error
  row_not_found foreign_key_violated invalid_json : Error

-- `CreateBusinessDto`, and `UpdateBusinessProfileDto` below.
pub record BusinessInput (J : Type 0) : Type 0 where
  pub slug : Text
  pub name : Text
  pub branding : Option J
  pub description : Option Text
  pub cuisine_type : Option Text
  pub subjects : Option Text
  pub qualifications : Option Text
  pub address : Option Text
  pub phone : Option Text
  pub opening_hours : Option J

pub record ProfileEdit (J : Type 0) : Type 0 where
  pub name : Option Text
  pub description : Option Text
  pub address : Option Text
  pub phone : Option Text
  pub opening_hours : Option J
  pub cuisine_type : Option Text
  pub qualifications : Option Text
  pub subjects : Option Text

abbrev pub over : {A : Type 0} → Option A → Option A → Option A
over none old = old
over (some a) _ = some a

abbrev pub only_for_kitchen : {A : Type 0} → BusinessTenant → Option A → Option A
only_for_kitchen kitchen o = o
only_for_kitchen tutor _ = none

abbrev pub only_for_tutor : {A : Type 0} → BusinessTenant → Option A → Option A
only_for_tutor kitchen _ = none
only_for_tutor tutor o = o

module _ {J : Type 0} where
  abbrev pub has_slug : Text → Business J → Bool
  has_slug slug b = same_text b.slug slug

  abbrev pub new_business : J → ℕ → BusinessTenant → ℕ → BusinessInput J → Option J → Business J
  new_business no_branding fresh tenant owner dto subjects = record {
    id = fresh;
    owner_global_user_id = owner;
    slug = dto.slug;
    name = dto.name;
    is_active = true;
    status = pending;
    branding = or_else dto.branding no_branding;
    description = dto.description;
    address = dto.address;
    phone = dto.phone;
    opening_hours = dto.opening_hours;
    cuisine_type = only_for_kitchen tenant dto.cuisine_type;
    qualifications = only_for_tutor tenant dto.qualifications;
    subjects = subjects;
  }

  abbrev pub edit_business : BusinessTenant → ProfileEdit J → Option J → Business J → Business J
  edit_business tenant dto subjects b = record b {
    name = or_else dto.name b.name;
    description = over dto.description b.description;
    address = over dto.address b.address;
    phone = over dto.phone b.phone;
    opening_hours = over dto.opening_hours b.opening_hours;
    cuisine_type = over (only_for_kitchen tenant dto.cuisine_type) b.cuisine_type;
    qualifications = over (only_for_tutor tenant dto.qualifications) b.qualifications;
    subjects = over subjects b.subjects;
  }

module _ {F J : Type 0} where
  -- `getDelegate(tx, config.table)` in the tenant's schema
  abbrev pub table_of : BusinessTenant → Businesses F J → List (Business J)
  table_of kitchen s = s.kitchens
  table_of tutor s = s.tutors

  abbrev pub with_table :
      BusinessTenant → (List (Business J) → List (Business J)) → Businesses F J → Businesses F J
  with_table kitchen f s = record s { kitchens = f s.kitchens }
  with_table tutor f s = record s { tutors = f s.tutors }

  -- `JSON.parse(dto.subjects)` of a tutor whose request has any.
  unfoldable pub parse_subjects :
      (Text → Option J) → BusinessTenant → Option Text → Action Error (Businesses F J) (Option J)
  parse_subjects parse tenant subjects = elim (only_for_tutor tenant subjects) [
    | none ↦ pure none
    | some t ↦ elim (parse t) [ none ↦ throw invalid_json | some j ↦ pure (some j) ]
  ]

  unfoldable pub create_business :
      (Text → Option J)
      → J
      → ℕ
      → BusinessTenant
      → ℕ
      → BusinessInput J
      → Action Error (Businesses F J) (Business J)
  create_business parse no_branding fresh tenant owner dto = do
    existing ← gets λ s. find_first (has_slug dto.slug) (table_of tenant s)
    throw_if (is_some existing) (duplicate_slug dto.slug)
    subjects ← parse_subjects parse tenant (truthy dto.subjects)
    modify (
        with_table tenant
          (λ bs. bs ++ new_business no_branding fresh tenant owner dto subjects ∷ []))
    pure (new_business no_branding fresh tenant owner dto subjects)

  unfoldable pub get_business : BusinessTenant → Text → Action Error (Businesses F J) (Business J)
  get_business tenant slug = do
    row ← gets λ s. find_first (has_slug slug) (table_of tenant s)
    or_throw row (business_not_found slug)

  unfoldable pub load_by_id : BusinessTenant → ℕ → Businesses F J → Option (Business J)
  load_by_id tenant id s = find id (table_of tenant s)

  unfoldable pub list_businesses : BusinessTenant → Bool → Businesses F J → List (Business J)
  list_businesses tenant active_only s =
      reverse (keep_if (λ b. not active_only || b.is_active) (table_of tenant s))

  -- `update({ where: { id }, data })` of the three methods that follow.
  abbrev pub update_business :
      BusinessTenant → ℕ → (Business J → Business J) → Action Error (Businesses F J) (Business J)
  update_business tenant id f = do
    row ← gets λ s. find id (table_of tenant s)
    business ← or_throw row row_not_found
    modify (with_table tenant (update id f))
    pure (f business)

  unfoldable pub update_branding :
      BusinessTenant → ℕ → J → Action Error (Businesses F J) (Business J)
  update_branding tenant id branding =
      update_business tenant id (λ b. record b { branding = branding })

  unfoldable pub update_profile :
      (Text → Option J)
      → BusinessTenant
      → ℕ
      → ProfileEdit J
      → Action Error (Businesses F J) (Business J)
  update_profile parse tenant id dto = do
    subjects ← parse_subjects parse tenant dto.subjects
    update_business tenant id (edit_business tenant dto subjects)

  unfoldable pub deactivate_business :
      BusinessTenant → ℕ → Action Error (Businesses F J) (Business J)
  deactivate_business tenant id = update_business tenant id (λ b. record b { is_active = false })

  -- The first in the order of the table, and for a kitchen its menu, newest first.
  unfoldable pub get_business_by_owner :
      BusinessTenant → ℕ → Businesses F J → Option (Business J × List (MenuItem F))
  get_business_by_owner tenant owner s =
      elim (find_first (λ b. b.owner_global_user_id == owner) (table_of tenant s)) [
        | none ↦ none
        | some b ↦ some (
          b,
          elim tenant [
            | kitchen ↦ reverse (keep_if (λ i. i.business_id == b.id) s.menu_items)
            | tutor ↦ []
          ],
        )
      ]
