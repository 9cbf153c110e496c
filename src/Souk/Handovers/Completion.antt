-- ===== src/Souk/Handovers/Completion.antt =====
-- The two confirmations of a handover.
use madinaty_ai_core_mesh.Base.{
  ℕ, ◌+◌, ◌*◌, ◌≡◌, ◌≢◌, ◌∙◌, refl, ap, Bool, true, false, [], ◌∷◌, ◌++◌, none, some, arith, ◌==◌,
  ◌&&◌, is_some, if◌then◌else◌,
}
use madinaty_ai_core_mesh.Base.Table.{find, update, find-update_self, find-append_none}
use madinaty_ai_core_mesh.Souk.{
  Souk, Listing, Offer, Handover, offer_keyed, listing_keyed, handover_keyed, confirmed, sold,
  is_agreed, is_party,
}
use madinaty_ai_core_mesh.Souk.Handovers.{
  confirm_handover, confirm_with, finalize_handover, release_hold, new_handover, confirm_row,
  finalize_row, status_row, confirmed_row, sold_row,
}

module _ (fresh now user : ℕ) (s : Souk) (o : Offer) (e : find o.id s.offers ≡ some o)
    (ag : is_agreed o.status ≡ true) (party : is_party user o ≡ true) where
  first_confirm :
      find o.id s.handovers ≡ none
      → let t = (confirm_handover fresh now o.id user s).1 in
        (t.offers ≡ update o.id (status_row now) s.offers)
        × (t.listings ≡ s.listings)
        × (t.handovers ≡ s.handovers ++ new_handover now o.id (o.buyer_id == user) ∷ [])
  unfolding confirm_handover confirm_with
  first_confirm h = (ground arith, ground arith, ground arith)

  last_confirm :
      (h : Handover)
      → find o.id s.handovers ≡ some h
      → (is_some (confirm_row now (o.buyer_id == user) h).buyer_confirmed_at
          && is_some (confirm_row now (o.buyer_id == user) h).seller_confirmed_at)
        ≡ true
      → let t = (confirm_handover fresh now o.id user s).1 in
        (t.offers ≡ update o.id (confirmed_row now) s.offers)
        × (t.listings ≡ update o.listing_id sold_row s.listings)
        × (t.handovers
            ≡ update o.id
                (finalize_row now)
                (update o.id (confirm_row now (o.buyer_id == user)) s.handovers))
  unfolding confirm_handover confirm_with finalize_handover release_hold
  last_confirm h f both = (ground arith, ground arith, ground arith)

-- The row that the first confirmation leaves: found, agreed, and of the same parties.
confirmed_by :
    (now : ℕ) (o : Offer) (first second : ℕ)
    → is_party first o ≡ true
    → is_party second o ≡ true
    → first ≢ second
    → (later : ℕ)
    → let h =
        confirm_row later (o.buyer_id == second) (new_handover now o.id (o.buyer_id == first)) in
      (is_some h.buyer_confirmed_at && is_some h.seller_confirmed_at) ≡ true
unfolding new_handover confirm_row
confirmed_by now o first second pf ps ne later = ground arith

found_new :
    (now : ℕ) (o : Offer) (first : ℕ)
    → find o.id (new_handover now o.id (o.buyer_id == first) ∷ [])
      ≡ some (new_handover now o.id (o.buyer_id == first))
unfolding find new_handover
found_new now o first = ground arith

confirm_keeps :
    (later : ℕ) (b : Bool) (h : Handover) → (confirm_row later b h).offer_id ≡ h.offer_id
unfolding confirm_row
confirm_keeps later true h = ground arith
confirm_keeps later false h = ground arith

completed_row :
    (now later : ℕ) (o : Offer) (first second : ℕ)
    → is_party first o ≡ true
    → is_party second o ≡ true
    → first ≢ second
    → some (
        finalize_row later
          (confirm_row later (o.buyer_id == second) (new_handover now o.id (o.buyer_id == first))))
      ≡ some (record {
        offer_id = o.id;
        buyer_confirmed_at = some (if o.buyer_id == first then now else later);
        seller_confirmed_at = some (if o.buyer_id == first then later else now);
        both_confirmed_at = some later;
        rating_window_ends_at = some (later + 24 * 60 * 60 * 1000);
      })
unfolding new_handover confirm_row
completed_row now later o first second pf ps ne = ground arith

-- Where the two parties of an accepted offer without a handover record confirm one after the other,
-- in either order, the offer is confirmed, its listing is sold, and the handover has both times,
-- with a rating window that ends 24 hours after the second.
pub handover_completes :
    (fresh next now later first second : ℕ) (s : Souk) (o : Offer) (l : Listing)
    → find o.id s.offers ≡ some o
    → find o.listing_id s.listings ≡ some l
    → find o.id s.handovers ≡ none
    → is_agreed o.status ≡ true
    → is_party first o ≡ true
    → is_party second o ≡ true
    → first ≢ second
    → let t =
        (confirm_handover next later o.id second (confirm_handover fresh now o.id first s).1).1 in
      (find o.id t.offers ≡ some (record o { status = confirmed; updated_at = later }))
      × (find o.listing_id t.listings ≡ some (record l { status = sold }))
      × (find o.id t.handovers
          ≡ some (record {
            offer_id = o.id;
            buyer_confirmed_at = some (if o.buyer_id == first then now else later);
            seller_confirmed_at = some (if o.buyer_id == first then later else now);
            both_confirmed_at = some later;
            rating_window_ends_at = some (later + 24 * 60 * 60 * 1000);
          }))
handover_completes fresh next now later first second s o l e f h ag pf ps ne =
    let a = first_confirm fresh now first s o e ag pf h in
    let mid = (confirm_handover fresh now o.id first s).1 in
    let row =
      ap (find o.id) (a.0) ∙ find-update_self o.id (status_row now) s.offers o (λ _. refl) e in
    let hand =
      ap (find o.id) (a.2)
      ∙ find-append_none o.id s.handovers (new_handover now o.id (o.buyer_id == first) ∷ []) h
      ∙ found_new now o first in
    let b =
      last_confirm next later second mid (status_row now o) row refl ps
        (new_handover now o.id (o.buyer_id == first)) hand
        (confirmed_by now o first second pf ps ne later) in
    (
      ap (find o.id) (b.0)
          ∙ find-update_self o.id (confirmed_row later) mid.offers (status_row now o) (λ _. refl)
              row,
      ap (find o.listing_id) (b.1)
          ∙ find-update_self o.listing_id sold_row mid.listings l (λ _. refl)
              (ap (find o.listing_id) (a.1) ∙ f),
      ap (find o.id) (b.2)
          ∙ find-update_self o.id (finalize_row later)
              (update o.id (confirm_row later (o.buyer_id == second)) mid.handovers)
              (confirm_row later (o.buyer_id == second)
                (new_handover now o.id (o.buyer_id == first)))
              (λ _. refl)
              (find-update_self o.id (confirm_row later (o.buyer_id == second)) mid.handovers
                (new_handover now o.id (o.buyer_id == first))
                (confirm_keeps later (o.buyer_id == second)) hand)
          ∙ completed_row now later o first second pf ps ne,
    )
