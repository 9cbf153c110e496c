-- ===== src/Express/Assignment.antt =====
-- Histories of deliveries, and how many deliveries a courier carries at a time.
use madinaty_ai_core_mesh.Base.{
  ℕ, ◌≤◌, ◌≡◌, refl, inl, inr, Bool, true, List, [], ◌∷◌, none, some, arith, ◌==◌, count,
  count-append, find_first, Option-cases,
}
use madinaty_ai_core_mesh.Base.Table.{find, update, count-update}
use madinaty_ai_core_mesh.Express.{
  Express, Courier, CourierStatus, CourierInput, Delivery, courier_keyed, delivery_keyed,
  create_courier, update_courier_profile, toggle_online, review_courier, get_courier_by_user_id,
  ensure_demo_courier,
}
use madinaty_ai_core_mesh.Express.Deliveries.{
  DeliveryInput, is_active_of, is_running, accept_delivery, accept_delivery_check,
  accept_delivery_commit, accept_delivery_row, get_active_delivery, pickup_delivery, pickup_row,
  complete_delivery, complete_row, create_delivery_request, new_delivery,
}

pub data Call : Type 0 where
  registers edits_profile : ℕ → ℕ → CourierInput → Call
  looks_up : ℕ → ℕ → Call
  goes_online : ℕ → ℕ → Bool → Call
  reviews : CourierStatus → ℕ → Call
  requests : ℕ → ℕ → DeliveryInput → Call
  accepts picks_up completes : ℕ → ℕ → ℕ → Call

-- The state after a call at a time, whether it returned or threw. A look at the available or the
-- active deliveries writes what the look-up of the courier writes.
unfoldable pub step : Bool → Express → ℕ × Call → Express
step dev s (now, registers fresh user dto) = (create_courier fresh user dto s).1
step dev s (now, edits_profile fresh user dto) = (update_courier_profile fresh user dto s).1
step dev s (now, looks_up fresh user) = (get_courier_by_user_id dev fresh user s).1
step dev s (now, goes_online fresh user online) = (toggle_online dev fresh user online s).1
step dev s (now, reviews status id) = (review_courier status id s).1
step dev s (now, requests fresh user dto) = (create_delivery_request fresh user dto s).1
step dev s (now, accepts fresh user id) = (accept_delivery dev fresh now user id s).1
step dev s (now, picks_up fresh user id) = (pickup_delivery dev fresh now user id s).1
step dev s (now, completes fresh user id) = (complete_delivery dev fresh now user id s).1

unfoldable pub run : Bool → Express → List (ℕ × Call) → Express
run dev s [] = s
run dev s (c ∷ cs) = run dev (step dev s c) cs

abbrev pub OneEach : List Delivery → Type 0
OneEach ds = (courier : ℕ) → count (is_active_of courier) ds ≤ 1

count_of_none :
    (c : ℕ) (ds : List Delivery)
    → find_first (is_active_of c) ds ≡ none
    → count (is_active_of c) ds ≡ 0
count_of_none c [] h = refl
count_of_none c (d ∷ ds) h = ground (arith, count_of_none c ds)

module _ (ds : List Delivery) (v : OneEach ds) (now id : ℕ) (d : Delivery)
    (e : find id ds ≡ some d) where
  accept-OneEach :
      (c : Courier) (courier : ℕ)
      → find_first (is_active_of c.id) ds ≡ none
      → count (is_active_of courier) (update id (accept_delivery_row now c) ds) ≤ 1
  accept-OneEach c courier free = ground (
    arith,
    v courier,
    count_of_none c.id ds free,
    count-update (is_active_of courier) id (accept_delivery_row now c) ds d e,
  )

  pickup-OneEach :
      (courier : ℕ)
      → is_running d.status ≡ true
      → count (is_active_of courier) (update id (pickup_row now) ds) ≤ 1
  pickup-OneEach courier h =
      ground (arith, v courier, count-update (is_active_of courier) id (pickup_row now) ds d e)

  complete-OneEach :
      (courier : ℕ) → count (is_active_of courier) (update id (complete_row now) ds) ≤ 1
  complete-OneEach courier =
      ground (arith, v courier, count-update (is_active_of courier) id (complete_row now) ds d e)

module _ (dev : Bool) (s : Express) (v : OneEach s.deliveries) where
  lookup-OneEach : (fresh user : ℕ) → OneEach (get_courier_by_user_id dev fresh user s).1.deliveries
  unfolding get_courier_by_user_id ensure_demo_courier
  lookup-OneEach fresh user courier = ground (arith, v courier)

  register-OneEach :
      (fresh user : ℕ) (dto : CourierInput) → OneEach (create_courier fresh user dto s).1.deliveries
  unfolding create_courier
  register-OneEach fresh user dto courier = elim (Option-cases (find user s.couriers)) [
    | inl e ↦ ground (arith, v courier)
    | inr (c, e) ↦ ground (arith, v courier)
  ]

  edit-OneEach :
      (fresh user : ℕ) (dto : CourierInput)
      → OneEach (update_courier_profile fresh user dto s).1.deliveries
  unfolding update_courier_profile
  edit-OneEach fresh user dto courier = elim (Option-cases (find user s.couriers)) [
    | inl e ↦ ground (arith, v courier)
    | inr (c, e) ↦ ground (arith, v courier, register-OneEach fresh user dto courier)
  ]

  toggle-OneEach :
      (fresh user : ℕ) (b : Bool) → OneEach (toggle_online dev fresh user b s).1.deliveries
  unfolding toggle_online get_courier_by_user_id ensure_demo_courier
  toggle-OneEach fresh user b courier = elim (Option-cases (find user s.couriers)) [
    | inl e ↦ ground (arith, v courier)
    | inr (c, e) ↦ ground (arith, v courier)
  ]

  review-OneEach :
      (status : CourierStatus) (id : ℕ) → OneEach (review_courier status id s).1.deliveries
  unfolding review_courier
  review-OneEach status id courier = ground (arith, v courier)

  request-OneEach :
      (fresh user : ℕ) (dto : DeliveryInput)
      → OneEach (create_delivery_request fresh user dto s).1.deliveries
  unfolding create_delivery_request new_delivery
  request-OneEach fresh user dto courier =
      elim (Option-cases (find_first (λ k. k.owner_id == user) s.kitchens)) [
        | inl e ↦ ground (arith, v courier)
        | inr (k, e) ↦ ground (
          arith,
          v courier,
          count-append (is_active_of courier) s.deliveries (new_delivery fresh k dto ∷ []),
        )
      ]

  take-OneEach :
      (fresh now user id : ℕ) → OneEach (accept_delivery dev fresh now user id s).1.deliveries
  unfolding accept_delivery accept_delivery_check accept_delivery_commit get_active_delivery
      get_courier_by_user_id ensure_demo_courier
  take-OneEach fresh now user id courier = elim (Option-cases (find user s.couriers)) [
    | inl e ↦ ground (arith, v courier)
    | inr (c, e) ↦ elim (Option-cases (find id s.deliveries)) [
      | inl f ↦ ground (arith, v courier)
      | inr (d, f) ↦ ground (arith, v courier, accept-OneEach s.deliveries v now id d f c courier)
    ]
  ]

  pick-OneEach :
      (fresh now user id : ℕ) → OneEach (pickup_delivery dev fresh now user id s).1.deliveries
  unfolding pickup_delivery get_courier_by_user_id ensure_demo_courier
  pick-OneEach fresh now user id courier = elim (Option-cases (find id s.deliveries)) [
    | inl e ↦ ground (arith, v courier)
    | inr (d, e) ↦ ground (arith, v courier, pickup-OneEach s.deliveries v now id d e courier)
  ]

  finish-OneEach :
      (fresh now user id : ℕ) → OneEach (complete_delivery dev fresh now user id s).1.deliveries
  unfolding complete_delivery get_courier_by_user_id ensure_demo_courier
  finish-OneEach fresh now user id courier = elim (Option-cases (find id s.deliveries)) [
    | inl e ↦ ground (arith, v courier)
    | inr (d, e) ↦ ground (arith, v courier, complete-OneEach s.deliveries v now id d e courier)
  ]

step-OneEach :
    (dev : Bool) (s : Express) (c : ℕ × Call)
    → OneEach s.deliveries
    → OneEach (step dev s c).deliveries
unfolding step
step-OneEach dev s (now, registers fresh user dto) v = register-OneEach dev s v fresh user dto
step-OneEach dev s (now, edits_profile fresh user dto) v = edit-OneEach dev s v fresh user dto
step-OneEach dev s (now, looks_up fresh user) v = lookup-OneEach dev s v fresh user
step-OneEach dev s (now, goes_online fresh user online) v = toggle-OneEach dev s v fresh user online
step-OneEach dev s (now, reviews status id) v = review-OneEach dev s v status id
step-OneEach dev s (now, requests fresh user dto) v = request-OneEach dev s v fresh user dto
step-OneEach dev s (now, accepts fresh user id) v = take-OneEach dev s v fresh now user id
step-OneEach dev s (now, picks_up fresh user id) v = pick-OneEach dev s v fresh now user id
step-OneEach dev s (now, completes fresh user id) v = finish-OneEach dev s v fresh now user id

-- However the calls of couriers, kitchens and reviewers follow each other, each run to its end
-- before the next, a courier has at most one delivery that is accepted or picked up, if that was so
-- before.
pub run-OneEach :
    (dev : Bool) (s : Express) (cs : List (ℕ × Call))
    → ((courier : ℕ) → count (is_active_of courier) s.deliveries ≤ 1)
    → (courier : ℕ) → count (is_active_of courier) (run dev s cs).deliveries ≤ 1
unfolding run
run-OneEach dev s [] v = v
run-OneEach dev s (c ∷ cs) v = run-OneEach dev (step dev s c) cs (step-OneEach dev s c v)
