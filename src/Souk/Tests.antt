-- ===== src/Souk/Tests.antt =====
-- The handlers of the marketplace on the sample data.
use madinaty_ai_core_mesh.Base.{
  ◌*◌, ◌≤◌, ◌≡◌, ◌≢◌, refl, arith, true, [], ◌∷◌, ◌++◌, none, some, find_first,
}
use madinaty_ai_core_mesh.Base.Int.{pos, ◌+ℤ◌}
use madinaty_ai_core_mesh.Base.Text.{codes}
use madinaty_ai_core_mesh.Base.Action.{err, IsAtomic}
use madinaty_ai_core_mesh.Base.Table.{find}
use madinaty_ai_core_mesh.Souk.{
  Souk, Offer, constraint_violated, pending, accepted, confirmed, sold, offer_keyed, listing_keyed,
  handover_keyed, is_active,
}
use madinaty_ai_core_mesh.Tokens.{wallet_keyed}
use madinaty_ai_core_mesh.Souk.Gates.{check_amount}
use madinaty_ai_core_mesh.Souk.Offers.{
  create_offer, accept_offer, decline_offer, counter_offer, withdraw_offer, update_offer,
  is_duplicate, new_offer,
}
use madinaty_ai_core_mesh.Souk.Offers.Bids.{create_offer_ok}
use madinaty_ai_core_mesh.Souk.Counters.{
  buyer_accept_counter, buyer_decline_counter, buyer_counter_offer,
}
use madinaty_ai_core_mesh.Souk.Handovers.{confirm_handover, cancel_offer}
use madinaty_ai_core_mesh.Souk.Handovers.Completion.{handover_completes}
use madinaty_ai_core_mesh.Souk.Handovers.Holds.{endings_refund_nothing}
use madinaty_ai_core_mesh.Souk.Listings.Query.{SearchEngine, SearchParams, number, left_out}
use madinaty_ai_core_mesh.Souk.Favorites.{add_favorite, remove_favorite}
use madinaty_ai_core_mesh.Souk.Favorites.Counting.{
  remove-add_favorite, add_favorite_again, add_times, IsCounted,
}
use madinaty_ai_core_mesh.Souk.Atomic.{accept_offer-IsAtomic, refusals_change_nothing}
use madinaty_ai_core_mesh.Souk.Samples.{sample_env, sample_listing, sample_souk, sample_wallet}

-- An offer with a token hold, accepted and not yet handed over.
abbrev agreed : Offer
agreed = record {
  id = 11;
  listing_id = 5;
  buyer_id = 2;
  seller_id = 1;
  amount = 80;
  note = none;
  status = accepted;
  parent_offer_id = none;
  token_hold_amount = some 5;
  token_hold_expires_at = some 100;
  accepted_at = some 20;
  declined_at = none;
  withdrawn_at = none;
  expired_at = none;
  decline_reason = none;
  created_at = 10;
  updated_at = 20;
}

abbrev agreed_souk : Souk
agreed_souk = sample_souk (agreed ∷ [])

accept_offer-IsAtomic_example : IsAtomic agreed_souk (accept_offer sample_env 30 11 1 agreed_souk)
accept_offer-IsAtomic_example = accept_offer-IsAtomic sample_env 30 11 1 agreed_souk

refusals_change_nothing_example :
    IsAtomic agreed_souk (create_offer 12 30 2 11 80 (some (codes "soon")) (some 5) agreed_souk)
    × IsAtomic agreed_souk (decline_offer 30 11 2 (some (codes "soon")) agreed_souk)
    × IsAtomic agreed_souk (counter_offer 12 30 11 2 80 agreed_souk)
    × IsAtomic agreed_souk (withdraw_offer 30 11 2 agreed_souk)
    × IsAtomic agreed_souk (update_offer 30 11 2 none (some (codes "soon")) agreed_souk)
    × IsAtomic agreed_souk (buyer_accept_counter sample_env 30 11 2 agreed_souk)
    × IsAtomic agreed_souk (buyer_decline_counter 30 11 2 (some (codes "soon")) agreed_souk)
    × IsAtomic agreed_souk (buyer_counter_offer 12 30 11 2 80 agreed_souk)
    × IsAtomic agreed_souk (confirm_handover 12 30 11 2 agreed_souk)
    × IsAtomic agreed_souk (cancel_offer 12 30 11 2 (codes "ill") agreed_souk)
refusals_change_nothing_example =
    refusals_change_nothing sample_env 12 30 11 2 80 (some 5) none (some (codes "soon"))
      (codes "ill") agreed_souk

-- The seller confirms at 30 and the buyer at 40.
handover_completes_example :
    let t = (confirm_handover 91 40 11 2 (confirm_handover 90 30 11 1 agreed_souk).1).1 in
    (find 11 t.offers ≡ some (record agreed { status = confirmed; updated_at = 40 }))
    × (find 5 t.listings ≡ some (record sample_listing { status = sold }))
    × (find 11 t.handovers
        ≡ some (record {
          offer_id = 11;
          buyer_confirmed_at = some 40;
          seller_confirmed_at = some 30;
          both_confirmed_at = some 40;
          rating_window_ends_at = some 86400040;
        }))
unfolding find
handover_completes_example =
    handover_completes 90 91 30 40 1 2 agreed_souk agreed sample_listing refl refl refl refl refl
      refl (λ h. ground arith)

endings_refund_nothing_example :
    (find 2 (cancel_offer 90 30 11 1 (codes "ill") agreed_souk).1.bank.wallets ≡ some sample_wallet)
    × (find 2 (confirm_handover 90 30 11 1 agreed_souk).1.bank.wallets ≡ some sample_wallet)
unfolding find
endings_refund_nothing_example =
    endings_refund_nothing agreed_souk 2 sample_wallet refl 90 30 11 1 (codes "ill")

abbrev empty_souk : Souk
empty_souk = sample_souk []

abbrev bid : Offer
bid = record agreed {
  status = pending;
  accepted_at = none;
  token_hold_expires_at = some 259200010;
  updated_at = 10;
}

create_offer_ok_example :
    (is_active sample_listing.status ≡ true)
    × (sample_listing.seller_id ≢ 2)
    × (1 ≤ 80)
    × (sample_listing.asking_price ≤ 2 * 80)
    × (2 * 80 ≤ 3 * sample_listing.asking_price)
    × (find_first (is_duplicate 5 2) empty_souk.offers ≡ none)
    × ((bid.amount ≡ 80) × (bid.note ≡ none) × (bid.token_hold_amount ≡ some 5))
    × ((bid.listing_id ≡ 5) × (bid.buyer_id ≡ 2) × (bid.seller_id ≡ 1))
    × ((bid.id ≡ 11) × (bid.status ≡ pending) × (bid.parent_offer_id ≡ none))
    × ((create_offer 11 10 2 5 80 none (some 5) empty_souk).1.offers
        ≡ empty_souk.offers ++ bid ∷ [])
unfolding create_offer check_amount find new_offer
create_offer_ok_example =
    create_offer_ok 11 10 2 5 80 none (some 5) empty_souk bid sample_listing refl refl

-- A database that leaves the rows in the order in which they came.
abbrev sample_engine : SearchEngine
sample_engine = record {
  same_category = λ _ _. true;
  same_condition = λ _ _. true;
  same_text = λ _ _. true;
  contains = λ _ _. true;
  order_by = λ _ ls. ls;
  with_nan = λ _ _. err constraint_violated;
}

abbrev sample_params : SearchParams
sample_params = record {
  category = none;
  condition = none;
  district = none;
  min_price = number (pos 10);
  max_price = number (pos 200);
  q = none;
  sort = none;
  page = left_out;
  limit = number (pos 500);
}

remove-add_favorite_example :
    let t = (remove_favorite 2 5 (add_favorite 2 5 empty_souk).1).1 in
    (t.favorites ≡ empty_souk.favorites) × (t.listings ≡ empty_souk.listings)
unfolding find
remove-add_favorite_example = remove-add_favorite 2 5 empty_souk sample_listing refl refl

add_favorite_again_example :
    let t = (remove_favorite 2 5 (add_times 3 2 5 empty_souk)).1 in
    (t.favorites ≡ empty_souk.favorites) × IsCounted 5 (pos 2) t
unfolding find ◌+ℤ◌
add_favorite_again_example = add_favorite_again 2 2 5 empty_souk sample_listing refl refl
