-- ===== src/Souk/Handovers.antt =====
-- What follows an accepted offer in soukelkanto.service.ts: `confirmHandover`, `finalizeHandover`,
-- `cancelOffer` and `revealContact`.
pub mod Completion
pub mod Holds
use madinaty_ai_core_mesh.Base.{
  ℕ, ◌+◌, ◌*◌, Bool, true, false, ◌&&◌, ◌||◌, not, List, [], ◌∷◌, ◌++◌, Option, none, some, ◌==◌,
  leb, if◌then◌else◌, is_some, keep_if, take,
}
use madinaty_ai_core_mesh.Base.Int.{pos}
use madinaty_ai_core_mesh.Base.Text.{Text, codes}
use madinaty_ai_core_mesh.Base.Action.{Action, modify, or_throw, pure, throw_if, ◌>>=◌, ◌>>◌}
use madinaty_ai_core_mesh.Base.Table.{find, update}
use madinaty_ai_core_mesh.Core.{user_keyed}
use madinaty_ai_core_mesh.Tokens.{individual, credit}
use madinaty_ai_core_mesh.Souk.{
  Souk, Listing, Offer, Handover, Error, offer_keyed, listing_keyed, handover_keyed, active, sold,
  confirmed, handover_pending, cancelled, message, event, notice, handover_confirmed,
  offer_cancelled, offer_declined_notice, counterpart_not_found, not_a_party, not_in_handover_state,
  contact_reveal_not_allowed, offer_not_cancellable, is_agreed, is_live, is_party,
}
use madinaty_ai_core_mesh.Souk.Gates.{read, tell, get_offer_row, listing_of, has_hold}

-- `tokens.credit(buyerId, 0, 'individual', ...)` in its `try`: what it throws is swallowed.
-- `fresh` is the id of a wallet that the call may create.
unfoldable pub release_hold : ℕ → ℕ → ℕ → Text → Action Error Souk (Unit {0})
release_hold fresh now buyer reason =
    modify
      λ s. record s { bank = (credit fresh now buyer (pos 0) individual (some reason) s.bank).1 }

abbrev pub status_row : ℕ → Offer → Offer
status_row now o = record o { status = handover_pending; updated_at = now }

abbrev pub confirmed_row : ℕ → Offer → Offer
confirmed_row now o = record o { status = confirmed; updated_at = now }

abbrev pub sold_row : Listing → Listing
sold_row l = record l { status = sold }

-- A party's confirmation is set once: the buyer's where the caller is the buyer.
unfoldable pub confirm_row : ℕ → Bool → Handover → Handover
confirm_row now true h =
    if is_some h.buyer_confirmed_at then h else record h { buyer_confirmed_at = some now }
confirm_row now false h =
    if is_some h.seller_confirmed_at then h else record h { seller_confirmed_at = some now }

abbrev pub is_both : Handover → Bool
is_both h = is_some h.buyer_confirmed_at && is_some h.seller_confirmed_at

-- The rating window stays open for 24 hours.
abbrev pub finalize_row : ℕ → Handover → Handover
finalize_row now h = record h {
  both_confirmed_at = some now;
  rating_window_ends_at = some (now + 24 * 60 * 60 * 1000);
}

-- `finalizeHandover`
unfoldable pub finalize_handover : ℕ → ℕ → Offer → Action Error Souk (Unit {0})
finalize_handover fresh now o = do
  modify λ s. record s { handovers = update o.id (finalize_row now) s.handovers }
  modify λ s. record s { offers = update o.id (confirmed_row now) s.offers }
  modify λ s. record s { listings = update o.listing_id sold_row s.listings }
  release_hold fresh now o.buyer_id (codes "Handover complete — token hold released")
  tell (event handover_confirmed o.seller_id o.id)

unfoldable pub new_handover : ℕ → ℕ → Bool → Handover
new_handover now offer is_buyer = record {
  offer_id = offer;
  buyer_confirmed_at = if is_buyer then some now else none;
  seller_confirmed_at = if is_buyer then none else some now;
  both_confirmed_at = none;
  rating_window_ends_at = none;
}

-- The first confirmation creates the record; a later one completes it.
unfoldable pub confirm_with :
    ℕ → ℕ → Offer → Bool → Option Handover → Action Error Souk (Option Handover)
unfolding new_handover
confirm_with fresh now offer is_buyer (some h) = do
  modify λ s. record s { handovers = update offer.id (confirm_row now is_buyer) s.handovers }
  updated ← read λ s. find offer.id s.handovers
  if is_both (confirm_row now is_buyer h) then finalize_handover fresh now offer else pure tt
  pure updated
confirm_with fresh now offer is_buyer none = do
  modify λ s. record s { handovers = s.handovers ++ new_handover now offer.id is_buyer ∷ [] }
  modify λ s. record s { offers = update offer.id (status_row now) s.offers }
  pure (some (new_handover now offer.id is_buyer))

unfoldable pub confirm_handover : ℕ → ℕ → ℕ → ℕ → Action Error Souk (Option Handover)
confirm_handover fresh now offer_id user = do
  offer ← get_offer_row offer_id
  existing ← read λ s. find offer_id s.handovers
  throw_if (not (is_agreed offer.status)) not_in_handover_state
  throw_if (not (is_party user offer)) not_a_party
  confirm_with fresh now offer (offer.buyer_id == user) existing

abbrev pub cancel_row : ℕ → Text → Offer → Offer
cancel_row now reason o = record o {
  status = cancelled;
  decline_reason = some (message (take 80 reason));
  updated_at = now;
}

abbrev pub reopen_row : Listing → Listing
reopen_row l = record l { status = active }

-- `offer.buyerId === callerId ? offer.sellerId : offer.buyerId`
abbrev pub counterpart : ℕ → Offer → ℕ
counterpart user o = if o.buyer_id == user then o.seller_id else o.buyer_id

release_cancelled : ℕ → ℕ → Offer → Text → Action Error Souk (Unit {0})
release_cancelled fresh now o reason =
    if has_hold o
    then release_hold fresh now o.buyer_id
        (codes "Offer cancelled — token hold released (" ++ (reason ++ codes ")"))
    else pure tt

unfoldable pub cancel_offer : ℕ → ℕ → ℕ → ℕ → Text → Action Error Souk (Option Offer)
unfolding release_cancelled
cancel_offer fresh now offer_id caller reason = do
  offer ← get_offer_row offer_id
  listing ← listing_of offer
  throw_if (not (is_party caller offer)) not_a_party
  throw_if (not (is_agreed offer.status)) (offer_not_cancellable offer.status)
  modify λ s. record s { offers = update offer_id (cancel_row now reason) s.offers }
  modify λ s. record s { listings = update offer.listing_id reopen_row s.listings }
  release_cancelled fresh now offer reason
  tell (event offer_cancelled (counterpart caller offer) offer_id)
  tell (notice offer_declined_notice (counterpart caller offer) offer.amount none)
  read λ s. find offer_id s.offers

pub data TrustTier : Type 0 where
  gold silver bronze new : TrustTier

unfoldable pub trust_tier : ℕ → TrustTier
trust_tier score =
    if leb 400 score
    then gold
    else if leb 200 score
    then silver
    else if leb 100 score
    then bronze
    else new

-- `replace(/\D/g, '')`
abbrev is_digit : ℕ → Bool
is_digit c = leb b'0' c && leb c b'9'

pub record Contact : Type 0 where
  pub offer_id : ℕ
  pub counterpart_id : ℕ
  pub full_name : Option Text
  pub phone_number : Text
  pub trust_score : ℕ
  pub tier : TrustTier
  pub wa_me_link : Text
  pub listing_title : Text

unfoldable pub reveal_contact : ℕ → ℕ → Action Error Souk Contact
unfolding trust_tier
reveal_contact offer_id caller = do
  offer ← get_offer_row offer_id
  listing ← listing_of offer
  throw_if (not (is_party caller offer)) not_a_party
  throw_if (not (is_live offer.status)) (contact_reveal_not_allowed offer.status)
  row ← read λ s. find (counterpart caller offer) s.core.users
  user ← or_throw row counterpart_not_found
  pure (record {
    offer_id = offer_id;
    counterpart_id = user.id;
    full_name = user.metadata.full_name;
    phone_number = user.phone_number;
    trust_score = user.trust_score;
    tier = trust_tier user.trust_score;
    wa_me_link = codes "https://wa.me/" ++ keep_if is_digit user.phone_number;
    listing_title = listing.title;
  })
