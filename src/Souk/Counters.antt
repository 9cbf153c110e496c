-- ===== src/Souk/Counters.antt =====
-- The buyer's side of a negotiation in soukelkanto.service.ts: `buyerAcceptCounter`,
-- `buyerDeclineCounter`, `buyerCounterOffer`, and the chain of offers of `getOfferChain`.
pub mod Chain
mod Tests
use madinaty_ai_core_mesh.Base.{
  ℕ, zero, suc, Bool, not, List, [], ◌∷◌, Option, none, some, ◌==◌, if◌then◌else◌, any, find_first,
}
use madinaty_ai_core_mesh.Base.Text.{Text}
use madinaty_ai_core_mesh.Base.Action.{Action, or_throw, modify, pure, throw_if, ◌>>=◌, ◌>>◌}
use madinaty_ai_core_mesh.Base.Table.{find, update}
use madinaty_ai_core_mesh.Souk.{
  Souk, Offer, Error, Env, offer_keyed, declined_by_buyer, notice, offer_declined_notice,
  listing_not_active, not_the_buyer, not_a_counter, offer_cannot_be_accepted,
  offer_cannot_be_declined, offer_cannot_be_countered, offer_not_found, is_active, is_pending,
}
use madinaty_ai_core_mesh.Souk.Gates.{
  read, tell, get_offer_row, listing_of, assert_profile_complete, assert_amount_in_band,
  assert_counter_depth_allowed, hold_tokens, parent_of,
}
use madinaty_ai_core_mesh.Souk.Offers.{settle_deal, decline_row, reason_or, put_counter}

-- `offer.parentOfferId === null` throws.
abbrev pub require_parent : Option ℕ → Action Error Souk ℕ
require_parent parent = or_throw parent not_a_counter

unfoldable pub buyer_accept_counter : Env → ℕ → ℕ → ℕ → Action Error Souk (Option Offer)
buyer_accept_counter env now offer_id buyer = do
  offer ← get_offer_row offer_id
  listing ← listing_of offer
  throw_if (not (offer.buyer_id == buyer)) not_the_buyer
  parent ← require_parent offer.parent_offer_id
  throw_if (not (is_pending offer.status)) offer_cannot_be_accepted
  throw_if (not (is_active listing.status)) (listing_not_active listing.status)
  assert_profile_complete env now buyer
  hold_tokens now offer
  settle_deal now (offer.id ∷ parent ∷ []) offer.seller_id offer

unfoldable pub buyer_decline_counter : ℕ → ℕ → ℕ → Option Text → Action Error Souk (Option Offer)
buyer_decline_counter now offer_id buyer reason = do
  offer ← get_offer_row offer_id
  listing ← listing_of offer
  throw_if (not (offer.buyer_id == buyer)) not_the_buyer
  parent ← require_parent offer.parent_offer_id
  throw_if (not (is_pending offer.status)) offer_cannot_be_declined
  throw_if (not (is_active listing.status)) (listing_not_active listing.status)
  modify λ s. record s {
    offers = update offer_id (decline_row now (reason_or (some declined_by_buyer) reason)) s.offers;
  }
  tell (notice offer_declined_notice offer.seller_id offer.amount none)
  read λ s. find offer_id s.offers

unfoldable pub buyer_counter_offer : ℕ → ℕ → ℕ → ℕ → ℕ → Action Error Souk Offer
buyer_counter_offer fresh now offer_id buyer amount = do
  parent ← get_offer_row offer_id
  listing ← listing_of parent
  throw_if (not (parent.buyer_id == buyer)) not_the_buyer
  grandparent ← require_parent parent.parent_offer_id
  throw_if (not (is_pending parent.status)) offer_cannot_be_countered
  throw_if (not (is_active listing.status)) (listing_not_active listing.status)
  assert_amount_in_band amount listing.asking_price
  assert_counter_depth_allowed parent.parent_offer_id
  put_counter fresh now amount parent.seller_id parent

abbrev pub mem : ℕ → List ℕ → Bool
mem id seen = any (λ i. i == id) seen

-- The walk up of `getOfferChain`, with fuel: the visited ids and the root's. A link to no offer
-- ends the walk at the missing id, as in the source.
unfoldable pub walk_up : ℕ → List Offer → List ℕ → ℕ → List ℕ × ℕ
walk_up zero offers visited root = (visited, root)
walk_up (suc fuel) offers visited root =
    if mem root visited then (visited, root) else elim (parent_of (find root offers)) [
      | none ↦ (root ∷ visited, root)
      | some parent ↦ walk_up fuel offers (root ∷ visited) parent
    ]

-- `findFirst({ where: { parentOfferId } })`
unfoldable pub first_child : ℕ → List Offer → Option Offer
first_child id offers =
    find_first (λ o. elim o.parent_offer_id [ none ↦ Bool.false | some p ↦ p == id ]) offers

-- The walk down, with fuel: the offers below the cursor, in order.
unfoldable pub walk_down : ℕ → List Offer → List ℕ → ℕ → List Offer
walk_down zero offers visited cursor = []
walk_down (suc fuel) offers visited cursor = elim (first_child cursor offers) [
  | none ↦ []
  | some child ↦
      let rest = walk_down fuel offers (child.id ∷ visited) child.id in
      if mem child.id visited then [] else child ∷ rest
]

unfoldable pub get_offer_chain : ℕ → ℕ → Action Error Souk (List Offer)
unfolding walk_up walk_down
get_offer_chain fuel offer_id = do
  top ← read λ s. walk_up fuel s.offers [] offer_id
  row ← read λ s. find top.1 s.offers
  root ← or_throw row offer_not_found
  below ← read λ s. walk_down fuel s.offers top.0 root.id
  pure (root ∷ below)
