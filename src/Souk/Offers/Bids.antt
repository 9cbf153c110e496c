-- ===== src/Souk/Offers/Bids.antt =====
-- What a bid needs and what it leaves.
use madinaty_ai_core_mesh.Base.{
  ℕ, ◌*◌, ◌≤◌, ◌≡◌, ◌≢◌, true, [], ◌∷◌, ◌++◌, Option, none, some, arith, find_first,
}
use madinaty_ai_core_mesh.Base.Text.{Text}
use madinaty_ai_core_mesh.Base.Action.{ok}
use madinaty_ai_core_mesh.Base.Table.{find}
use madinaty_ai_core_mesh.Souk.{Souk, Listing, Offer, listing_keyed, pending, is_active}
use madinaty_ai_core_mesh.Souk.Gates.{check_amount}
use madinaty_ai_core_mesh.Souk.Offers.{create_offer, is_duplicate, new_offer}

-- A bid that is made is on an active listing of another user, lies between half and one and a half
-- of the asking price, was the buyer's only pending first bid there, and is appended to the offers:
-- a pending first bid of the buyer to the seller on that listing, with the amount, the note and the
-- token hold of the request.
pub create_offer_ok :
    (fresh now buyer listing amount : ℕ) (text : Option Text) (hold : Option ℕ) (s : Souk)
    (o : Offer) (l : Listing)
    → find listing s.listings ≡ some l
    → (create_offer fresh now buyer listing amount text hold s).0 ≡ ok o
    → (is_active l.status ≡ true)
      × (l.seller_id ≢ buyer)
      × (1 ≤ o.amount)
      × (l.asking_price ≤ 2 * o.amount)
      × (2 * o.amount ≤ 3 * l.asking_price)
      × (find_first (is_duplicate listing buyer) s.offers ≡ none)
      × ((o.amount ≡ amount) × (o.note ≡ text) × (o.token_hold_amount ≡ hold))
      × ((o.listing_id ≡ listing) × (o.buyer_id ≡ buyer) × (o.seller_id ≡ l.seller_id))
      × ((o.id ≡ fresh) × (o.status ≡ pending) × (o.parent_offer_id ≡ none))
      × ((create_offer fresh now buyer listing amount text hold s).1.offers ≡ s.offers ++ o ∷ [])
unfolding create_offer check_amount new_offer
create_offer_ok fresh now buyer listing amount text hold s o l e h = (
  ground arith,
  ground arith,
  ground arith,
  ground arith,
  ground arith,
  ground arith,
  (ground arith, ground arith, ground arith),
  (ground arith, ground arith, ground arith),
  (ground arith, ground arith, ground arith),
  ground arith,
)
