-- ===== src/Souk/Counters/Tests.antt =====
-- An offer and the counter-offer that answers it: asked about the counter-offer, `getOfferChain`
-- returns the first offer alone.
use madinaty_ai_core_mesh.Base.{◌+◌, ◌≡◌, refl, false, [], ◌∷◌, none, some, ◌==◌, length, All}
use madinaty_ai_core_mesh.Base.Table.{find}
use madinaty_ai_core_mesh.Souk.{Souk, Offer, OfferStatus}
use madinaty_ai_core_mesh.Souk.Counters.{get_offer_chain, walk_up, walk_down, first_child}
use madinaty_ai_core_mesh.Souk.Counters.Chain.{get_offer_chain_ends, get_offer_chain_omits}
use madinaty_ai_core_mesh.Souk.Samples.{sample_souk}

abbrev opening : Offer
opening = record {
  id = 11;
  listing_id = 5;
  buyer_id = 2;
  seller_id = 1;
  amount = 80;
  note = none;
  status = OfferStatus.countered;
  parent_offer_id = none;
  token_hold_amount = none;
  token_hold_expires_at = none;
  accepted_at = none;
  declined_at = none;
  withdrawn_at = none;
  expired_at = none;
  decline_reason = none;
  created_at = 10;
  updated_at = 20;
}

abbrev answer : Offer
answer = record opening {
  id = 12;
  amount = 90;
  status = OfferStatus.pending;
  parent_offer_id = some 11;
}

abbrev haggling : Souk
haggling = sample_souk (opening ∷ answer ∷ [])

get_offer_chain_ends_example :
    get_offer_chain (4 + (length haggling.offers + 1)) 12 haggling
    ≡ get_offer_chain (length haggling.offers + 1) 12 haggling
get_offer_chain_ends_example = get_offer_chain_ends 4 12 haggling

get_offer_chain_omits_example : All (λ (o : Offer). (o.id == 12) ≡ false) []
unfolding get_offer_chain walk_up walk_down first_child find
get_offer_chain_omits_example = get_offer_chain_omits 3 12 haggling opening [] refl
