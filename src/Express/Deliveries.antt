-- ===== src/Express/Deliveries.antt =====
-- The deliveries of apps/core-hub/src/modules/express/express.service.ts: a kitchen creates a
-- request, a courier accepts it, picks it up and completes it.
use madinaty_ai_core_mesh.Base.{
  ℕ, Bool, true, false, ◌&&◌, not, List, [], ◌∷◌, ◌++◌, Option, none, some, ◌==◌, is_some,
  find_first, keep_if,
}
use mathlib.Core.List.{reverse}
use madinaty_ai_core_mesh.Base.Text.{Text, codes, same_text}
use madinaty_ai_core_mesh.Base.Action.{Action, pure, gets, modify, or_throw, throw_if, ◌>>=◌, ◌>>◌}
use madinaty_ai_core_mesh.Base.Table.{find, update}
use madinaty_ai_core_mesh.Express.{
  Express, Courier, Delivery, DeliveryStatus, Kitchen, Error, delivery_keyed, accepted, picked_up,
  delivered, delivery_not_found, kitchen_not_found, account_inactive, delivery_of_another,
  kitchen_inactive, courier_offline, delivery_active, delivery_taken, not_ready_for_pickup,
  not_picked_up, is_approved, require_courier,
}

abbrev pub is_waiting : DeliveryStatus → Bool
is_waiting DeliveryStatus.pending = true
is_waiting _ = false

abbrev pub is_accepted : DeliveryStatus → Bool
is_accepted accepted = true
is_accepted _ = false

abbrev pub is_picked_up : DeliveryStatus → Bool
is_picked_up picked_up = true
is_picked_up _ = false

-- `status: { in: ['ACCEPTED', 'PICKED_UP'] }`
abbrev pub is_running : DeliveryStatus → Bool
is_running accepted = true
is_running picked_up = true
is_running _ = false

abbrev pub is_assigned : ℕ → Option ℕ → Bool
is_assigned courier none = false
is_assigned courier (some c) = c == courier

abbrev pub is_active_of : ℕ → Delivery → Bool
is_active_of courier d = is_assigned courier d.courier_id && is_running d.status

unfoldable pub get_available_deliveries : Bool → ℕ → ℕ → Action Error Express (List Delivery)
get_available_deliveries dev_bypass fresh user = do
  courier ← require_courier dev_bypass fresh user
  throw_if (not (is_approved courier.status)) account_inactive
  throw_if (not courier.is_online) courier_offline
  gets λ s. reverse (keep_if (λ d. is_waiting d.status) s.deliveries)

unfoldable pub get_active_delivery : Bool → ℕ → ℕ → Action Error Express (Option Delivery)
get_active_delivery dev_bypass fresh user = do
  courier ← require_courier dev_bypass fresh user
  gets λ s. find_first (is_active_of courier.id) s.deliveries

abbrev pub accept_delivery_row : ℕ → Courier → Delivery → Delivery
accept_delivery_row now c d = record d {
  status = accepted;
  courier_id = some c.id;
  courier_name = some c.name;
  courier_phone = some c.phone;
  accepted_at = some now;
}

-- `acceptDelivery` up to its write: the courier.
unfoldable pub accept_delivery_check : Bool → ℕ → ℕ → ℕ → Action Error Express Courier
accept_delivery_check dev_bypass fresh user id = do
  courier ← require_courier dev_bypass fresh user
  throw_if (not (is_approved courier.status)) account_inactive
  throw_if (not courier.is_online) courier_offline
  active ← get_active_delivery dev_bypass fresh user
  throw_if (is_some active) delivery_active
  row ← gets λ s. find id s.deliveries
  delivery ← or_throw row delivery_not_found
  throw_if (not (is_waiting delivery.status)) delivery_taken
  pure courier

unfoldable pub accept_delivery_commit : ℕ → ℕ → Courier → Action Error Express (Option Delivery)
accept_delivery_commit now id courier = do
  modify λ s. record s { deliveries = update id (accept_delivery_row now courier) s.deliveries }
  gets λ s. find id s.deliveries

unfoldable pub accept_delivery : Bool → ℕ → ℕ → ℕ → ℕ → Action Error Express (Option Delivery)
accept_delivery dev_bypass fresh now user id = do
  courier ← accept_delivery_check dev_bypass fresh user id
  accept_delivery_commit now id courier

abbrev pub pickup_row : ℕ → Delivery → Delivery
pickup_row now d = record d { status = picked_up; picked_up_at = some now }

unfoldable pub pickup_delivery : Bool → ℕ → ℕ → ℕ → ℕ → Action Error Express (Option Delivery)
pickup_delivery dev_bypass fresh now user id = do
  courier ← require_courier dev_bypass fresh user
  row ← gets λ s. find id s.deliveries
  delivery ← or_throw row delivery_not_found
  throw_if (not (is_assigned courier.id delivery.courier_id)) delivery_of_another
  throw_if (not (is_accepted delivery.status)) not_ready_for_pickup
  modify λ s. record s { deliveries = update id (pickup_row now) s.deliveries }
  gets λ s. find id s.deliveries

abbrev pub complete_row : ℕ → Delivery → Delivery
complete_row now d = record d { status = delivered; delivered_at = some now }

unfoldable pub complete_delivery : Bool → ℕ → ℕ → ℕ → ℕ → Action Error Express (Option Delivery)
complete_delivery dev_bypass fresh now user id = do
  courier ← require_courier dev_bypass fresh user
  row ← gets λ s. find id s.deliveries
  delivery ← or_throw row delivery_not_found
  throw_if (not (is_assigned courier.id delivery.courier_id)) delivery_of_another
  throw_if (not (is_picked_up delivery.status)) not_picked_up
  modify λ s. record s { deliveries = update id (complete_row now) s.deliveries }
  gets λ s. find id s.deliveries

pub record DeliveryInput : Type 0 where
  pub delivery_point : Text
  pub recipient_name : Text
  pub recipient_phone : Text
  pub notes : Option Text

unfoldable pub new_delivery : ℕ → Kitchen → DeliveryInput → Delivery
new_delivery fresh kitchen dto = record {
  id = fresh;
  kitchen_business_id = kitchen.id;
  kitchen_name = kitchen.name;
  delivery_point = dto.delivery_point;
  recipient_name = dto.recipient_name;
  recipient_phone = dto.recipient_phone;
  notes = dto.notes;
  status = DeliveryStatus.pending;
  courier_id = none;
  courier_name = none;
  courier_phone = none;
  accepted_at = none;
  picked_up_at = none;
  delivered_at = none;
}

unfoldable pub create_delivery_request : ℕ → ℕ → DeliveryInput → Action Error Express Delivery
create_delivery_request fresh user dto = do
  row ← gets λ s. find_first (λ k. k.owner_id == user) s.kitchens
  kitchen ← or_throw row kitchen_not_found
  throw_if (not (same_text kitchen.status (codes "APPROVED"))) kitchen_inactive
  modify λ s. record s { deliveries = s.deliveries ++ new_delivery fresh kitchen dto ∷ [] }
  pure (new_delivery fresh kitchen dto)

unfoldable pub get_deliveries_by_kitchen : ℕ → Action Error Express (List Delivery)
get_deliveries_by_kitchen user = do
  row ← gets λ s. find_first (λ k. k.owner_id == user) s.kitchens
  kitchen ← or_throw row kitchen_not_found
  gets λ s. reverse (keep_if (λ d. d.kitchen_business_id == kitchen.id) s.deliveries)

unfoldable pub get_delivery_request_by_id : ℕ → Action Error Express (Option Delivery)
get_delivery_request_by_id id = gets λ s. find id s.deliveries
