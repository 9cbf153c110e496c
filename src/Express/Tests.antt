-- ===== src/Express/Tests.antt =====
-- Two couriers, one kitchen and one waiting delivery.
use madinaty_ai_core_mesh.Base.{ℕ, ◌≤◌, ◌≡◌, refl, arith, true, false, [], ◌∷◌, none, some, count}
use madinaty_ai_core_mesh.Base.Text.{codes}
use madinaty_ai_core_mesh.Base.Table.{find}
use madinaty_ai_core_mesh.Express.{
  Express, Courier, Delivery, DeliveryStatus, approved, courier_keyed, delivery_keyed,
  get_courier_by_user_id,
}
use madinaty_ai_core_mesh.Express.Deliveries.{
  is_active_of, accept_delivery_check, accept_delivery_commit, get_active_delivery,
}
use madinaty_ai_core_mesh.Express.Assignment.{accepts, picks_up, run, run-OneEach}
use madinaty_ai_core_mesh.Express.Race.{carrier, accept_delivery_race}

abbrev courier : ℕ → ℕ → Courier
courier i user = record {
  id = i;
  user_id = user;
  name = codes "Ali";
  phone = codes "010";
  vehicle_type = codes "CAR";
  national_id = codes "29";
  national_id_photo = none;
  personal_photo = none;
  status = approved;
  is_online = true;
}

abbrev waiting : Delivery
waiting = record {
  id = 8;
  kitchen_business_id = 4;
  kitchen_name = codes "K";
  delivery_point = codes "B2";
  recipient_name = codes "Mona";
  recipient_phone = codes "010";
  notes = none;
  status = DeliveryStatus.pending;
  courier_id = none;
  courier_name = none;
  courier_phone = none;
  accepted_at = none;
  picked_up_at = none;
  delivered_at = none;
}

abbrev two_couriers : Express
two_couriers = record {
  users = [];
  kitchens = [];
  couriers = courier 21 1 ∷ courier 22 2 ∷ [];
  deliveries = waiting ∷ record waiting { id = 9 } ∷ [];
}

run-OneEach_example :
    count
      (is_active_of 21)
      (run false two_couriers
        ((10, accepts 0 1 8) ∷ (11, accepts 0 1 9) ∷ (12, picks_up 0 1 8) ∷ [])).deliveries
    ≤ 1
run-OneEach_example =
    run-OneEach false two_couriers
      ((10, accepts 0 1 8) ∷ (11, accepts 0 1 9) ∷ (12, picks_up 0 1 8) ∷ [])
      (λ courier. omega arith) 21

accept_delivery_race_example :
    let mid = (accept_delivery_commit 10 8 (courier 21 1) two_couriers).1 in
    let last = (accept_delivery_commit 11 8 (courier 22 2) mid).1 in
    (carrier (find 8 mid.deliveries) ≡ some 21) × (carrier (find 8 last.deliveries) ≡ some 22)
unfolding accept_delivery_check get_active_delivery get_courier_by_user_id find
accept_delivery_race_example =
    accept_delivery_race false 0 10 11 1 2 8 two_couriers (courier 21 1) (courier 22 2) refl refl
