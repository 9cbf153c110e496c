-- ===== src/Souk/Sale/Tests.antt =====
-- A history of the sample marketplace: two bids, a counter to the first, and its acceptance.
use madinaty_ai_core_mesh.Base.{◌≤◌, ◌≡◌, refl, arith, true, [], ◌∷◌, none, some, count, All}
use madinaty_ai_core_mesh.Base.Text.{trim}
use madinaty_ai_core_mesh.Base.Table.{find, update}
use madinaty_ai_core_mesh.Souk.{Souk, Offer, accepted, pending, offer_keyed, listing_keyed}
use madinaty_ai_core_mesh.Souk.Gates.{check_amount, check_depth, check_profile, depth_from}
use madinaty_ai_core_mesh.Souk.Offers.{
  create_offer, counter_offer, put_counter, is_duplicate, accept_check, accept_commit, new_offer,
}
use madinaty_ai_core_mesh.Souk.Samples.{sample_env, sample_config, sample_listing, sample_souk}
use madinaty_ai_core_mesh.Souk.Sale.Single.{is_live_on}
use madinaty_ai_core_mesh.Souk.Sale.Answered.{active_at}
use madinaty_ai_core_mesh.Souk.Sale.Settled.{is_settled}
use madinaty_ai_core_mesh.Souk.Sale.Sound.{IsPriced}
use madinaty_ai_core_mesh.Souk.Sale.History.{
  step, Reach, here, next, bids, counters, accepts_counter,
}
use madinaty_ai_core_mesh.Souk.Sale.Reachable.{
  no_double_sale, active_is_free, pending_is_on_active, chains_are_short, one_pending_bid,
  counter_settles_parent,
}
use madinaty_ai_core_mesh.Souk.Sale.Race.{accept_race, status_at}

abbrev start : Souk
start = sample_souk []

abbrev first_bid : Souk
first_bid = step sample_env sample_config start (10, bids 11 5 2 80 none none)

abbrev second_bid : Souk
second_bid = step sample_env sample_config first_bid (20, bids 12 5 3 90 none none)

abbrev countered_bid : Souk
countered_bid = step sample_env sample_config second_bid (30, counters 13 11 1 95)

abbrev dealt : Souk
dealt = step sample_env sample_config countered_bid (40, accepts_counter 13 2)

Reach-countered : Reach sample_env sample_config start countered_bid
unfolding step create_offer check_amount is_duplicate new_offer find counter_offer put_counter
    check_depth depth_from update
Reach-countered =
    next (30, counters 13 11 1 95)
      (next (20, bids 12 5 3 90 none none) (next (10, bids 11 5 2 80 none none) here refl) refl)
      refl

Reach-dealt : Reach sample_env sample_config start dealt
Reach-dealt = next (40, accepts_counter 13 2) Reach-countered tt

no_double_sale_example : count (is_live_on 5) dealt.offers ≤ 1
no_double_sale_example = no_double_sale sample_env sample_config start dealt refl Reach-dealt 5

active_is_free_example : count (is_live_on 5) countered_bid.offers ≡ 0
unfolding step create_offer check_amount is_duplicate new_offer find counter_offer put_counter
    check_depth depth_from update
active_is_free_example =
    active_is_free sample_env sample_config start countered_bid refl Reach-countered 5
      sample_listing refl refl

abbrev second_row : Offer
second_row = record {
  id = 12;
  listing_id = 5;
  buyer_id = 3;
  seller_id = 1;
  amount = 90;
  note = none;
  status = pending;
  parent_offer_id = none;
  token_hold_amount = none;
  token_hold_expires_at = none;
  accepted_at = none;
  declined_at = none;
  withdrawn_at = none;
  expired_at = none;
  decline_reason = none;
  created_at = 20;
  updated_at = 20;
}

abbrev counter : Offer
counter = record second_row {
  id = 13;
  buyer_id = 2;
  amount = 95;
  parent_offer_id = some 11;
  created_at = 30;
  updated_at = 30;
}

found_counter : find 13 countered_bid.offers ≡ some counter
unfolding step create_offer check_amount is_duplicate new_offer find counter_offer put_counter
    check_depth depth_from update
found_counter = refl

pending_is_on_active_example : active_at (find 5 countered_bid.listings) ≡ true
pending_is_on_active_example =
    pending_is_on_active sample_env sample_config start countered_bid refl Reach-countered 13
      counter found_counter refl

chains_are_short_example : depth_from 4 countered_bid.offers (some 11) ≤ 2
chains_are_short_example =
    chains_are_short sample_env sample_config start countered_bid refl Reach-countered 13 counter
      found_counter

counter_settles_parent_example : is_settled (find 11 countered_bid.offers) ≡ true
counter_settles_parent_example =
    counter_settles_parent sample_env sample_config start countered_bid refl Reach-countered 13 11
      counter found_counter refl

one_pending_bid_example :
    (count (is_duplicate 5 3) countered_bid.offers ≤ 1) × All IsPriced countered_bid.offers
one_pending_bid_example =
    one_pending_bid sample_env sample_config start countered_bid refl Reach-countered 5 3

abbrev first_row : Offer
first_row = record second_row {
  id = 11;
  buyer_id = 2;
  amount = 80;
  created_at = 10;
  updated_at = 10;
}

abbrev two_bids : Souk
two_bids = sample_souk (first_row ∷ second_row ∷ [])

accept_race_example :
    (status_at 11 (accept_commit 40 second_row (accept_commit 40 first_row two_bids).1).1
      ≡ some accepted)
    × (status_at 12 (accept_commit 40 second_row (accept_commit 40 first_row two_bids).1).1
        ≡ some accepted)
unfolding accept_check find check_profile trim
accept_race_example =
    accept_race sample_env 40 11 12 1 two_bids first_row second_row refl refl (λ h. ground arith)
      refl refl refl
