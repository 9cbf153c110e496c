-- ===== src/Express/Race.antt =====
-- Two calls of `acceptDelivery` on one delivery of which each makes its checks before the other
-- writes.
use madinaty_ai_core_mesh.Base.{
  ℕ, ◌≡◌, ◌≢◌, refl, ap, inl, inr, Bool, Option, none, some, arith, Option-cases,
}
use madinaty_ai_core_mesh.Base.Action.{ok}
use madinaty_ai_core_mesh.Base.Table.{find, update, find-update_self}
use madinaty_ai_core_mesh.Express.{
  Express, Courier, Delivery, courier_keyed, delivery_keyed, get_courier_by_user_id,
  ensure_demo_courier,
}
use madinaty_ai_core_mesh.Express.Deliveries.{
  accept_delivery_check, accept_delivery_commit, accept_delivery_row, get_active_delivery,
}

-- The courier that a delivery names.
abbrev pub carrier : Option Delivery → Option ℕ
carrier none = none
carrier (some d) = d.courier_id

checked_delivery :
    (dev : Bool) (fresh user id : ℕ) (s : Express) (c : Courier)
    → (accept_delivery_check dev fresh user id s).0 ≡ ok c
    → find id s.deliveries ≢ none
unfolding accept_delivery_check get_active_delivery get_courier_by_user_id ensure_demo_courier
checked_delivery dev fresh user id s c h e = elim (Option-cases (find user s.couriers)) [
  | inl a ↦ ground arith
  | inr (r, a) ↦ ground arith
]

-- Of two couriers whose calls pass the checks of `acceptDelivery` for one delivery on the same
-- database, the first is answered with a delivery in its own name, and the second has the delivery
-- in the end.
pub accept_delivery_race :
    (dev : Bool) (fresh now later user other id : ℕ) (s : Express) (c e : Courier)
    → (accept_delivery_check dev fresh user id s).0 ≡ ok c
    → (accept_delivery_check dev fresh other id s).0 ≡ ok e
    → let mid = (accept_delivery_commit now id c s).1 in
      let last = (accept_delivery_commit later id e mid).1 in
      (carrier (find id mid.deliveries) ≡ some c.id)
      × (carrier (find id last.deliveries) ≡ some e.id)
unfolding accept_delivery_commit
accept_delivery_race dev fresh now later user other id s c e hc he =
    elim (Option-cases (find id s.deliveries)) [
      | inl gone ↦ absurd (checked_delivery dev fresh user id s c hc gone)
      | inr (d, there) ↦
          let mid =
            find-update_self id (accept_delivery_row now c) s.deliveries d (λ _. refl) there in
          (
            ap carrier mid,
            ap carrier (
                find-update_self id (accept_delivery_row later e)
                  (update id (accept_delivery_row now c) s.deliveries) (accept_delivery_row now c d)
                  (λ _. refl) mid),
          )
    ]
