-- ===== src/Express.antt =====
-- The courier and delivery rows of prisma/schema.prisma, and the couriers of
-- apps/core-hub/src/modules/express/express.service.ts: `createCourier`, `updateCourierProfile`,
-- `getCourierByUserId` with the demo account, and `toggleOnline`; `approveCourier` and
-- `rejectCourier` are in apps/core-hub/src/modules/admin/admin.service.ts. Every `now` is the clock
-- of the call and every `fresh` the id that the database draws.
pub mod Deliveries
pub mod Assignment
pub mod Race
mod Tests
use madinaty_ai_core_mesh.Base.{
  ℕ, Bool, true, false, ◌&&◌, not, List, [], ◌∷◌, ◌++◌, Option, none, some, ◌==◌, if◌then◌else◌,
  or_else, any, is_some,
}
use madinaty_ai_core_mesh.Base.Text.{Text, codes, same_text, is_empty}
use madinaty_ai_core_mesh.Base.Action.{
  Action, pure, throw, gets, modify, or_throw, throw_if, ◌>>=◌, ◌>>◌,
}
use madinaty_ai_core_mesh.Base.Table.{Keyed, find, update, update_where}
use madinaty_ai_core_mesh.Core.{User, user_keyed}

pub data CourierStatus : Type 0 where
  pending approved rejected : CourierStatus

pub data DeliveryStatus : Type 0 where
  pending accepted picked_up delivered cancelled : DeliveryStatus

pub record Courier : Type 0 where
  pub id : ℕ
  pub user_id : ℕ
  pub name : Text
  pub phone : Text
  pub vehicle_type : Text
  pub national_id : Text
  pub national_id_photo : Option Text
  pub personal_photo : Option Text
  pub status : CourierStatus
  pub is_online : Bool

pub record Delivery : Type 0 where
  pub id : ℕ
  pub kitchen_business_id : ℕ
  pub kitchen_name : Text
  pub delivery_point : Text
  pub recipient_name : Text
  pub recipient_phone : Text
  pub notes : Option Text
  pub status : DeliveryStatus
  pub courier_id : Option ℕ
  pub courier_name : Option Text
  pub courier_phone : Option Text
  pub accepted_at : Option ℕ
  pub picked_up_at : Option ℕ
  pub delivered_at : Option ℕ

pub record Kitchen : Type 0 where
  pub id : ℕ
  pub owner_id : ℕ
  pub name : Text
  pub status : Text

pub record Express : Type 0 where
  pub users : List User
  pub kitchens : List Kitchen
  pub couriers : List Courier
  pub deliveries : List Delivery

-- Couriers are looked up by their unique `userId`.
instance abbrev pub courier_keyed : Keyed Courier
courier_keyed = record { key = λ c. c.user_id }

instance abbrev pub delivery_keyed : Keyed Delivery
delivery_keyed = record { key = λ d. d.id }

pub data Error : Type 0 where
  -- 404
  courier_not_found delivery_not_found kitchen_not_found : Error
  -- 403
  account_inactive delivery_of_another kitchen_inactive : Error
  -- 400
  profile_locked national_id_taken courier_offline delivery_active delivery_taken : Error
  not_ready_for_pickup not_picked_up : Error
  -- 500: a unique index
  constraint_violated : Error

abbrev pub is_approved : CourierStatus → Bool
is_approved approved = true
is_approved _ = false

pub record CourierInput : Type 0 where
  pub name : Text
  pub phone : Option Text
  pub vehicle_type : Text
  pub national_id : Text
  pub national_id_photo : Option Text
  pub personal_photo : Option Text

-- `dto.phone || user?.phoneNumber || ''`
final_phone : Option Text → Option User → Text
final_phone given none = or_else given []
final_phone given (some u) =
    if is_empty (or_else given []) then u.phone_number else or_else given []

abbrev edit_courier : CourierInput → Text → Courier → Courier
edit_courier dto phone c = record c {
  name = dto.name;
  phone = phone;
  vehicle_type = dto.vehicle_type;
  national_id = dto.national_id;
  national_id_photo =
      if is_some dto.national_id_photo then dto.national_id_photo else c.national_id_photo;
  personal_photo = if is_some dto.personal_photo then dto.personal_photo else c.personal_photo;
  status = CourierStatus.pending;
  is_online = false;
}

-- The national id is in use by another user.
abbrev taken_by_other : ℕ → Text → Courier → Bool
taken_by_other user national c = same_text c.national_id national && not (c.user_id == user)

unfoldable pub create_courier : ℕ → ℕ → CourierInput → Action Error Express (Option Courier)
unfolding final_phone
create_courier fresh user dto = do
  existing ← gets λ s. find user s.couriers
  elim existing [
    | some c ↦ do
      throw_if (is_approved c.status) profile_locked
      taken ← gets λ s. any (taken_by_other user dto.national_id) s.couriers
      throw_if taken national_id_taken
      account ← gets λ s. find user s.users
      modify λ s. record s {
        couriers = update user (edit_courier dto (final_phone dto.phone account)) s.couriers;
      }
      gets λ s. find user s.couriers
    | none ↦ do
      taken ← gets λ s. any (λ c. same_text c.national_id dto.national_id) s.couriers
      throw_if taken national_id_taken
      account ← gets λ s. find user s.users
      let courier : Courier = record {
        id = fresh;
        user_id = user;
        name = dto.name;
        phone = final_phone dto.phone account;
        vehicle_type = dto.vehicle_type;
        national_id = dto.national_id;
        national_id_photo = dto.national_id_photo;
        personal_photo = dto.personal_photo;
        status = CourierStatus.pending;
        is_online = false;
      }
      modify λ s. record s { couriers = s.couriers ++ courier ∷ [] }
      pure (some courier)
  ]

unfoldable pub update_courier_profile : ℕ → ℕ → CourierInput → Action Error Express (Option Courier)
update_courier_profile fresh user dto = do
  existing ← gets λ s. find user s.couriers
  or_throw existing courier_not_found
  create_courier fresh user dto

abbrev pub demo_phone_number : Text
demo_phone_number = codes "01000000000"

-- `isDemoExpressEnabled`: `auth.devBypass` of the configuration, and the phone number.
abbrev pub is_demo_express_enabled : Bool → Text → Bool
is_demo_express_enabled dev_bypass phone = dev_bypass && same_text phone demo_phone_number

-- The display name of the demo account, in UTF-16 code units.
abbrev demo_name : Text
demo_name =
    0x643 ∷ 0x627 ∷ 0x628 ∷ 0x62a ∷ 0x646 ∷ 0x20 ∷ 0x645 ∷ 0x62f ∷ 0x64a ∷ 0x646 ∷ 0x62a ∷ 0x64a
    ∷ 0x20 ∷ 0x627 ∷ 0x644 ∷ 0x62a ∷ 0x62c ∷ 0x631 ∷ 0x64a ∷ 0x628 ∷ 0x64a ∷ []

abbrev demo_courier : ℕ → ℕ → Courier
demo_courier fresh user = record {
  id = fresh;
  user_id = user;
  name = demo_name;
  phone = demo_phone_number;
  vehicle_type = codes "MOTORCYCLE";
  national_id = codes "DEMO-EXPRESS-0001";
  national_id_photo = none;
  personal_photo = none;
  status = approved;
  is_online = false;
}

-- `ensureDemoCourier`, for a user without a courier row, which is when it is called: the upsert
-- creates. The unique index on the national id is the check.
unfoldable pub ensure_demo_courier : ℕ → ℕ → Action Error Express (Option Courier)
ensure_demo_courier fresh user = do
  taken ← gets λ s. any (λ c. same_text c.national_id (codes "DEMO-EXPRESS-0001")) s.couriers
  throw_if taken constraint_violated
  modify λ s. record s { couriers = s.couriers ++ demo_courier fresh user ∷ [] }
  pure (some (demo_courier fresh user))

is_demo_user : Bool → Option User → Bool
is_demo_user dev_bypass none = false
is_demo_user dev_bypass (some u) = is_demo_express_enabled dev_bypass u.phone_number

unfoldable pub get_courier_by_user_id : Bool → ℕ → ℕ → Action Error Express (Option Courier)
unfolding is_demo_user
get_courier_by_user_id dev_bypass fresh user = do
  existing ← gets λ s. find user s.couriers
  account ← gets λ s. find user s.users
  elim existing [
    | some c ↦ pure (some c)
    | none ↦ if is_demo_user dev_bypass account then ensure_demo_courier fresh user else pure none
  ]

-- The courier of the caller, who has to have one.
abbrev pub require_courier : Bool → ℕ → ℕ → Action Error Express Courier
require_courier dev_bypass fresh user = do
  row ← get_courier_by_user_id dev_bypass fresh user
  or_throw row courier_not_found

unfoldable pub toggle_online : Bool → ℕ → ℕ → Bool → Action Error Express (Option Courier)
toggle_online dev_bypass fresh user online = do
  courier ← require_courier dev_bypass fresh user
  throw_if (not (is_approved courier.status)) account_inactive
  modify λ s. record s {
    couriers =
        update_where (λ c. c.id == courier.id) (λ c. record c { is_online = online }) s.couriers;
  }
  gets λ s. find user s.couriers

abbrev pub review_row : CourierStatus → Courier → Courier
review_row status c = record c { status = status }

-- `approveCourier` and `rejectCourier`
unfoldable pub review_courier : CourierStatus → ℕ → Action Error Express (Unit {0})
review_courier status id = do
  known ← gets λ s. any (λ c. c.id == id) s.couriers
  throw_if (not known) courier_not_found
  modify λ s. record s { couriers = update_where (λ c. c.id == id) (review_row status) s.couriers }
