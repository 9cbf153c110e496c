-- ===== src/Souk/Offers.antt =====
-- The offers of soukelkanto.service.ts: `createOffer`, `getOffer`, `acceptOffer`, `declineOffer`,
-- `counterOffer`, `withdrawOffer`, `updateOffer` and the two lists. `now` is the clock of the call
-- and `fresh` the id that the database draws for a new row. Every update of an offer also sets
-- its `updatedAt`.
pub mod Bids
use madinaty_ai_core_mesh.Base.{
  ℕ, ◌+◌, ◌*◌, Bool, true, false, ◌&&◌, ◌||◌, not, List, [], ◌∷◌, ◌++◌, Option, none, some, map,
  ◌==◌, if◌then◌else◌, or_else, is_some, any, keep_if, find_first, take,
}
use mathlib.Core.List.{reverse}
use madinaty_ai_core_mesh.Base.Text.{Text, trim, is_empty}
use madinaty_ai_core_mesh.Base.Action.{Action, pure, modify, or_throw, throw, throw_if, ◌>>=◌, ◌>>◌}
use madinaty_ai_core_mesh.Base.Table.{find, update, update_where}
use madinaty_ai_core_mesh.Souk.{
  Souk, Listing, Offer, OfferStatus, DeclineReason, Error, Env, Effect, offer_keyed, listing_keyed,
  pending, accepted, declined, countered, withdrawn, reserved, auto_declined_listing_sold, message,
  event, notice, offer_accepted, offer_cascade_declined, offer_created_notice,
  offer_accepted_notice, offer_declined_notice, offer_countered_notice, offer_withdrawn_notice,
  listing_not_found, listing_not_active, cannot_offer_on_own_listing, offer_already_pending,
  not_the_seller, not_the_buyer, offer_cannot_be_accepted, offer_cannot_be_declined,
  offer_cannot_be_countered, offer_cannot_be_withdrawn, offer_cannot_be_edited, is_active,
  is_pending, is_open,
}
use madinaty_ai_core_mesh.Souk.Gates.{
  read, tell, get_offer_row, listing_of, assert_profile_complete, assert_amount_in_band,
  assert_counter_depth_allowed, hold_tokens,
}

-- The `where` of the duplicate check of `createOffer`.
unfoldable pub is_duplicate : ℕ → ℕ → Offer → Bool
is_duplicate listing buyer o =
    o.listing_id == listing
    && o.buyer_id == buyer
    && is_pending o.status
    && not (is_some o.parent_offer_id)

-- 72 hours after the call, for a hold that is given and not 0.
hold_expiry : ℕ → Option ℕ → Option ℕ
hold_expiry now none = none
hold_expiry now (some hold) = if hold == 0 then none else some (now + 72 * 60 * 60 * 1000)

-- A row as `soukOffer.create` makes it.
unfoldable pub new_offer : ℕ → ℕ → ℕ → ℕ → ℕ → ℕ → Option Text → Option ℕ → Option ℕ → Offer
unfolding hold_expiry
new_offer fresh now listing buyer seller amount note hold parent = record {
  id = fresh;
  listing_id = listing;
  buyer_id = buyer;
  seller_id = seller;
  amount = amount;
  note = note;
  status = pending;
  parent_offer_id = parent;
  token_hold_amount = hold;
  token_hold_expires_at = hold_expiry now hold;
  accepted_at = none;
  declined_at = none;
  withdrawn_at = none;
  expired_at = none;
  decline_reason = none;
  created_at = now;
  updated_at = now;
}

unfoldable pub create_offer : ℕ → ℕ → ℕ → ℕ → ℕ → Option Text → Option ℕ → Action Error Souk Offer
unfolding is_duplicate
create_offer fresh now buyer listing_id amount note hold = do
  row ← read λ s. find listing_id s.listings
  listing ← or_throw row listing_not_found
  throw_if (not (is_active listing.status)) (listing_not_active listing.status)
  throw_if (listing.seller_id == buyer) cannot_offer_on_own_listing
  assert_amount_in_band amount listing.asking_price
  existing ← read λ s. find_first (is_duplicate listing_id buyer) s.offers
  elim existing [
    | some e ↦ throw (offer_already_pending e.id e.amount)
    | none ↦ do
      let offer = new_offer fresh now listing_id buyer listing.seller_id amount note hold none
      modify λ s. record s { offers = s.offers ++ offer ∷ [] }
      tell (notice offer_created_notice listing.seller_id amount none)
      pure offer
  ]

unfoldable pub get_offer : ℕ → Action Error Souk Offer
get_offer id = get_offer_row id

-- The other open offers on the listing, but for the excluded ids.
unfoldable pub is_sibling : ℕ → List ℕ → Offer → Bool
is_sibling listing excluded o =
    o.listing_id == listing && not (any (λ i. i == o.id) excluded) && is_open o.status

abbrev pub cascade_decline : ℕ → Offer → Offer
cascade_decline now o = record o {
  status = declined;
  declined_at = some now;
  decline_reason = some auto_declined_listing_sold;
  updated_at = now;
}

abbrev pub accept_row : ℕ → Offer → Offer
accept_row now o = record o { status = accepted; accepted_at = some now; updated_at = now }

abbrev pub reserve_row : Listing → Listing
reserve_row l = record l { status = reserved }

cascade_effects : List Offer → List Effect
cascade_effects [] = []
cascade_effects (o ∷ os) =
    event offer_cascade_declined o.buyer_id o.id
    ∷ notice offer_declined_notice o.buyer_id o.amount none
    ∷ cascade_effects os

-- The transaction of `acceptOffer` and `buyerAcceptCounter`: `updateMany` names exactly the rows
-- that `findMany` has returned. Then the event and the notices, of which `party` gets the first and
-- the last.
unfoldable pub settle_deal : ℕ → List ℕ → ℕ → Offer → Action Error Souk (Option Offer)
unfolding cascade_effects
settle_deal now excluded party o = do
  siblings ← read λ s. keep_if (is_sibling o.listing_id excluded) s.offers
  modify λ s. record s {
    offers = update_where (is_sibling o.listing_id excluded) (cascade_decline now) s.offers;
  }
  modify λ s. record s { offers = update o.id (accept_row now) s.offers }
  modify λ s. record s { listings = update o.listing_id reserve_row s.listings }
  tell (event offer_accepted party o.id)
  modify λ s. record s { effects = s.effects ++ cascade_effects siblings }
  tell (notice offer_accepted_notice party o.amount none)
  read λ s. find o.id s.offers

-- `acceptOffer` up to its first write: the offer as it was read.
unfoldable pub accept_check : Env → ℕ → ℕ → ℕ → Action Error Souk Offer
accept_check env now offer_id seller = do
  offer ← get_offer_row offer_id
  listing ← listing_of offer
  throw_if (not (offer.seller_id == seller)) not_the_seller
  throw_if (not (is_open offer.status)) offer_cannot_be_accepted
  throw_if (not (is_active listing.status)) (listing_not_active listing.status)
  assert_profile_complete env now seller
  pure offer

-- The writes of `acceptOffer`, which go by what was read before.
unfoldable pub accept_commit : ℕ → Offer → Action Error Souk (Option Offer)
accept_commit now offer = do
  hold_tokens now offer
  settle_deal now (offer.id ∷ []) offer.buyer_id offer

unfoldable pub accept_offer : Env → ℕ → ℕ → ℕ → Action Error Souk (Option Offer)
unfolding accept_check accept_commit
accept_offer env now offer_id seller = do
  offer ← accept_check env now offer_id seller
  accept_commit now offer

-- `reason?.trim() ? reason.trim().slice(0, 80) : fallback`
unfoldable pub reason_or : Option DeclineReason → Option Text → Option DeclineReason
reason_or fallback none = fallback
reason_or fallback (some r) =
    if is_empty (trim r) then fallback else some (message (take 80 (trim r)))

abbrev pub decline_row : ℕ → Option DeclineReason → Offer → Offer
decline_row now reason o = record o {
  status = declined;
  declined_at = some now;
  decline_reason = reason;
  updated_at = now;
}

unfoldable pub decline_offer : ℕ → ℕ → ℕ → Option Text → Action Error Souk (Option Offer)
decline_offer now offer_id seller reason = do
  offer ← get_offer_row offer_id
  listing ← listing_of offer
  throw_if (not (offer.seller_id == seller)) not_the_seller
  throw_if (not (is_open offer.status)) offer_cannot_be_declined
  throw_if (not (is_active listing.status)) (listing_not_active listing.status)
  modify λ s. record s {
    offers = update offer_id (λ o. decline_row now (reason_or o.decline_reason reason) o) s.offers;
  }
  tell (notice offer_declined_notice offer.buyer_id offer.amount none)
  read λ s. find offer_id s.offers

abbrev pub counter_row : ℕ → Offer → Offer
counter_row now o = record o { status = countered; updated_at = now }

-- The writes of `counterOffer` and `buyerCounterOffer`, with the notice to the other party.
unfoldable pub put_counter : ℕ → ℕ → ℕ → ℕ → Offer → Action Error Souk Offer
put_counter fresh now amount recipient parent = do
  modify λ s. record s { offers = update parent.id (counter_row now) s.offers }
  let counter =
      new_offer fresh now parent.listing_id parent.buyer_id parent.seller_id amount none none
        (some parent.id)
  modify λ s. record s { offers = s.offers ++ counter ∷ [] }
  tell (notice offer_countered_notice recipient parent.amount (some amount))
  pure counter

unfoldable pub counter_offer : ℕ → ℕ → ℕ → ℕ → ℕ → Action Error Souk Offer
counter_offer fresh now offer_id seller amount = do
  parent ← get_offer_row offer_id
  listing ← listing_of parent
  throw_if (not (parent.seller_id == seller)) not_the_seller
  throw_if (not (is_pending parent.status)) offer_cannot_be_countered
  throw_if (not (is_active listing.status)) (listing_not_active listing.status)
  assert_amount_in_band amount listing.asking_price
  assert_counter_depth_allowed parent.parent_offer_id
  put_counter fresh now amount parent.buyer_id parent

abbrev pub withdraw_row : ℕ → Offer → Offer
withdraw_row now o = record o { status = withdrawn; withdrawn_at = some now; updated_at = now }

unfoldable pub withdraw_offer : ℕ → ℕ → ℕ → Action Error Souk (Option Offer)
withdraw_offer now offer_id buyer = do
  offer ← get_offer_row offer_id
  listing ← listing_of offer
  throw_if (not (offer.buyer_id == buyer)) not_the_buyer
  throw_if (not (is_pending offer.status)) offer_cannot_be_withdrawn
  modify λ s. record s { offers = update offer_id (withdraw_row now) s.offers }
  tell (notice offer_withdrawn_notice offer.seller_id offer.amount none)
  read λ s. find offer_id s.offers

-- The amount of an edit, checked where it is given.
assert_edit_in_band : Option ℕ → ℕ → Action Error Souk (Unit {0})
assert_edit_in_band none asking = pure tt
assert_edit_in_band (some amount) asking = assert_amount_in_band amount asking

-- `dto.note?.trim() || undefined`
edited_note : Option Text → Option Text → Option Text
edited_note old none = old
edited_note old (some n) = if is_empty (trim n) then old else some (trim n)

unfoldable pub edit_row : ℕ → Option ℕ → Option Text → Offer → Offer
unfolding edited_note
edit_row now amount note o = record o {
  amount = or_else amount o.amount;
  note = edited_note o.note note;
  updated_at = now;
}

write_edit : ℕ → ℕ → Option ℕ → Option Text → Action Error Souk (Option Offer)
write_edit now offer_id amount note = do
  modify λ s. record s { offers = update offer_id (edit_row now amount note) s.offers }
  read λ s. find offer_id s.offers

-- With neither field in the request the row is returned as it is.
unfoldable pub update_offer : ℕ → ℕ → ℕ → Option ℕ → Option Text → Action Error Souk (Option Offer)
unfolding assert_edit_in_band edited_note edit_row write_edit
update_offer now offer_id buyer amount note = do
  offer ← get_offer_row offer_id
  listing ← listing_of offer
  throw_if (not (offer.buyer_id == buyer)) not_the_buyer
  throw_if (not (is_pending offer.status)) offer_cannot_be_edited
  assert_edit_in_band amount listing.asking_price
  if is_some amount || is_some note then write_edit now offer_id amount note else pure (some offer)

-- Newest first, at most 100.
unfoldable pub list_sent_offers : ℕ → Action Error Souk (List Offer)
list_sent_offers buyer = read λ s. take 100 (reverse (keep_if (λ o. o.buyer_id == buyer) s.offers))

unfoldable pub list_received_offers : ℕ → Action Error Souk (List Offer)
list_received_offers seller =
    read λ s. take 100 (reverse (keep_if (λ o. o.seller_id == seller) s.offers))
