-- ===== src/Souk/Sale/Reachable.antt =====
-- What holds in every state of the marketplace that calls lead to.
use madinaty_ai_core_mesh.Base.{ℕ, ◌+◌, ◌≤◌, ◌≡◌, true, [], some, arith, count, All}
use madinaty_ai_core_mesh.Base.Table.{find, All-find}
use madinaty_ai_core_mesh.Trust.{TrustConfig}
use madinaty_ai_core_mesh.Souk.{
  Souk, Env, Listing, Offer, offer_keyed, listing_keyed, is_active, is_pending,
}
use madinaty_ai_core_mesh.Souk.Sale.Single.{is_live_on, capacity-le}
use madinaty_ai_core_mesh.Souk.Sale.Answered.{active_at}
use madinaty_ai_core_mesh.Souk.Sale.Settled.{is_settled, HasSettledParent}
use madinaty_ai_core_mesh.Souk.Sale.History.{Reach}
use madinaty_ai_core_mesh.Souk.Offers.{is_duplicate}
use madinaty_ai_core_mesh.Souk.Gates.{depth_from, max_counter_depth}
use madinaty_ai_core_mesh.Souk.Sale.Sound.{IsPriced}
use madinaty_ai_core_mesh.Souk.Sale.Chains.{IsShort}
use madinaty_ai_core_mesh.Souk.Sale.Steps.{Reach-SafeSouk, start-SafeSouk}

module _ (env : Env) (config : TrustConfig) (s t : Souk) (start : s.offers ≡ [])
    (r : Reach env config s t) where
  -- After any calls, each run to its end before the next, on a database that started without offers
  -- and gave new offers new ids: at most one offer on a listing is accepted, in handover or
  -- confirmed, whatever the listing's state.
  pub no_double_sale : (listing : ℕ) → count (is_live_on listing) t.offers ≤ 1
  no_double_sale listing = ground (
    arith,
    (Reach-SafeSouk (start-SafeSouk s start) r).single listing,
    capacity-le (find listing t.listings),
  )

  -- After any calls, each run to its end before the next, on a database that started without offers
  -- and gave new offers new ids: no offer on an active listing is accepted, in handover
  -- or confirmed.
  pub active_is_free :
      (listing : ℕ) (l : Listing)
      → find listing t.listings ≡ some l
      → is_active l.status ≡ true
      → count (is_live_on listing) t.offers ≡ 0
  active_is_free listing l f ac =
      ground (arith, (Reach-SafeSouk (start-SafeSouk s start) r).single listing)

  -- After any calls, each run to its end before the next, on a database that started without offers
  -- and gave new offers new ids: a pending offer is on a listing that is there and
  -- active.
  pub pending_is_on_active :
      (id : ℕ) (o : Offer)
      → find id t.offers ≡ some o
      → is_pending o.status ≡ true
      → active_at (find o.listing_id t.listings) ≡ true
  pending_is_on_active id o e =
      All-find (λ x. is_pending x.status ≡ true → active_at (find x.listing_id t.listings) ≡ true)
        id t.offers o (Reach-SafeSouk (start-SafeSouk s start) r).answered e

  -- After any calls, each run to its end before the next, on a database that started without offers
  -- and gave new offers new ids: the offer that a counter-offer answers is there and is
  -- no longer pending.
  pub counter_settles_parent :
      (id parent : ℕ) (o : Offer)
      → find id t.offers ≡ some o
      → o.parent_offer_id ≡ some parent
      → is_settled (find parent t.offers) ≡ true
  counter_settles_parent id parent o e p = ground (
    arith,
    All-find (HasSettledParent t.offers) id t.offers o
        (Reach-SafeSouk (start-SafeSouk s start) r).sound.settled e,
  )

  -- After any calls, each run to its end before the next, on a database that started without offers
  -- and gave new offers new ids: the walk of `assertCounterDepthAllowed` from any offer
  -- finds at most two offers above it.
  pub chains_are_short :
      (id : ℕ) (o : Offer)
      → find id t.offers ≡ some o
      → depth_from (max_counter_depth + 2) t.offers o.parent_offer_id ≤ max_counter_depth
  chains_are_short id o e =
      All-find (IsShort t.offers) id t.offers o
        (Reach-SafeSouk (start-SafeSouk s start) r).sound.short e

  -- After any calls, each run to its end before the next, on a database that started without offers
  -- and gave new offers new ids: a buyer has at most one pending first bid on a
  -- listing, and the amount of every offer is positive.
  pub one_pending_bid :
      (listing buyer : ℕ)
      → (count (is_duplicate listing buyer) t.offers ≤ 1) × All IsPriced t.offers
  one_pending_bid listing buyer =
      let v = (Reach-SafeSouk (start-SafeSouk s start) r).sound in
      (v.one_root listing buyer, v.priced)
