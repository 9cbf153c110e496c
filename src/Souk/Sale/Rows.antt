-- ===== src/Souk/Sale/Rows.antt =====
-- What each handler's changes of the two tables, and those that change neither, keep.
use madinaty_ai_core_mesh.Base.{
  ℕ, ◌+◌, find_first, or_else, Bool-cases, ◌≤◌, ◌≡◌, refl, subst, Bool, true, List, [], ◌∷◌, ◌++◌,
  Option, none, some, arith, count, inl, inr, Option-cases, bit,
}
use madinaty_ai_core_mesh.Base.Text.{Text}
use madinaty_ai_core_mesh.Base.Table.{find, update}
use madinaty_ai_core_mesh.Core.{IncidentType}
use madinaty_ai_core_mesh.Souk.{Dispute, DisputeReason}
use madinaty_ai_core_mesh.Trust.{TrustConfig}
use madinaty_ai_core_mesh.Souk.{
  Souk, Listing, resolved, dispute_keyed, Offer, DeclineReason, offer_keyed, listing_keyed,
  is_active, is_agreed,
}
use madinaty_ai_core_mesh.Souk.Offers.{is_duplicate, new_offer, decline_row, withdraw_row, edit_row}
use madinaty_ai_core_mesh.Souk.Handovers.{status_row}
use madinaty_ai_core_mesh.Souk.Listings.{ListingEdit, edited_row}
use madinaty_ai_core_mesh.Souk.Favorites.{add_favorite, remove_favorite, more_row, fewer_row}
use madinaty_ai_core_mesh.Souk.Ratings.{create_rating}
use madinaty_ai_core_mesh.Souk.Disputes.{
  create_dispute, resolve_dispute, reject_dispute, report_dispute, incident_of, end_row,
}
use madinaty_ai_core_mesh.Souk.Reports.{report_listing, file_report}
use madinaty_ai_core_mesh.Souk.Gates.{check_amount, depth_from}
use madinaty_ai_core_mesh.Base.Action.{ok}
use madinaty_ai_core_mesh.Souk.Sale.Sound.{OneRoot, append-IsSound, count_of_none}
use madinaty_ai_core_mesh.Souk.Sale.Safety.{
  IsSafe, Ends-Closes, update-IsSafe, append-IsSafe, listing-IsSafe,
}
use madinaty_ai_core_mesh.Souk.Sale.Deals.{found_by_own}

abbrev pub SafeSouk : Souk → Type 0
SafeSouk s = IsSafe s.listings s.offers

pub checked_positive : (amount asking : ℕ) → check_amount amount asking ≡ ok tt → 1 ≤ amount
unfolding check_amount
checked_positive amount asking h = ground arith

-- A first bid where its buyer had none pending on its listing.
root_bound :
    (os : List Offer)
    → OneRoot os
    → (o : Offer) → count (is_duplicate o.listing_id o.buyer_id) os ≡ 0
    → (i b : ℕ) → count (is_duplicate i b) os + bit (is_duplicate i b o) ≤ 1
unfolding is_duplicate
root_bound os one o none_yet i b = elim (Bool-cases (is_duplicate i b o)) [
  | inl dup ↦ ground (
    arith,
    subst (λ j. count (is_duplicate j b) os ≡ 0) (same_left dup)
        (subst (λ c. count (is_duplicate o.listing_id c) os ≡ 0) (same_right dup) none_yet),
  )
  | inr other ↦ ground (arith, one i b)
]
  where
    same_left : is_duplicate i b o ≡ true → o.listing_id ≡ i
    same_left h = ground arith

    same_right : is_duplicate i b o ≡ true → o.buyer_id ≡ b
    same_right h = ground arith

module _ (s : Souk) (v : SafeSouk s) where
  pub decline-IsSafe :
      (now id : ℕ) (reason : Offer → Option DeclineReason) (o : Offer)
      → find id s.offers ≡ some o
      → IsSafe s.listings (update id (λ r. decline_row now (reason r) r) s.offers)
  decline-IsSafe now id reason o e =
      update-IsSafe s.listings s.offers v (λ r. decline_row now (reason r) r) id o e
        (Ends-Closes (λ r. decline_row now (reason r) r)
          (λ _. (refl, refl, refl, refl, refl, refl)))
        (λ listing. ground arith)

  pub withdraw-IsSafe :
      (now id : ℕ) (o : Offer)
      → find id s.offers ≡ some o
      → IsSafe s.listings (update id (withdraw_row now) s.offers)
  withdraw-IsSafe now id o e =
      update-IsSafe s.listings s.offers v (withdraw_row now) id o e
        (Ends-Closes (withdraw_row now) (λ _. (refl, refl, refl, refl, refl, refl)))
        (λ listing. ground arith)

  pub edit-IsSafe :
      (now id : ℕ) (amount : Option ℕ) (remark : Option Text) (o : Offer)
      → find id s.offers ≡ some o
      → 1 ≤ or_else amount 1
      → IsSafe s.listings (update id (edit_row now amount remark) s.offers)
  unfolding edit_row
  edit-IsSafe now id amount remark o e paid =
      update-IsSafe s.listings s.offers v (edit_row now amount remark) id o e
        (record {
          same_id = λ _. refl;
          same_listing = λ _. refl;
          same_buyer = λ _. refl;
          same_parent = λ _. refl;
          was_pending = λ _ h. h;
          keeps_priced = λ r h. ground (arith, paid);
        })
        (λ listing. ground arith)

  pub status-IsSafe :
      (now id : ℕ) (o : Offer)
      → find id s.offers ≡ some o
      → is_agreed o.status ≡ true
      → IsSafe s.listings (update o.id (status_row now) s.offers)
  status-IsSafe now id o e ag =
      update-IsSafe s.listings s.offers v (status_row now) o.id o (found_by_own s.offers id o e)
        (Ends-Closes (status_row now) (λ _. (refl, refl, refl, refl, refl, refl)))
        (λ listing. ground arith)

  pub new_offer-IsSafe :
      (fresh now listing buyer amount : ℕ) (remark : Option Text) (hold : Option ℕ) (l : Listing)
      → find fresh s.offers ≡ none
      → find listing s.listings ≡ some l
      → is_active l.status ≡ true
      → check_amount amount l.asking_price ≡ ok tt
      → find_first (is_duplicate listing buyer) s.offers ≡ none
      → IsSafe s.listings
          (s.offers ++ new_offer fresh now listing buyer l.seller_id amount remark hold none ∷ [])
  unfolding new_offer depth_from
  new_offer-IsSafe fresh now listing buyer amount remark hold l free f ac paid first =
      let o = new_offer fresh now listing buyer l.seller_id amount remark hold none in
      append-IsSafe s.listings s.offers v o
        (append-IsSound s.offers o free refl (omega arith)
          (checked_positive amount l.asking_price paid)
          (root_bound s.offers v.sound.one_root o
            (count_of_none (is_duplicate listing buyer) s.offers first))
          v.sound)
        refl (ground arith)

  pub favorite-SafeSouk : (user listing : ℕ) → SafeSouk (add_favorite user listing s).1
  unfolding add_favorite
  favorite-SafeSouk user listing =
      ground (arith, v, listing-IsSafe s.listings s.offers v listing more_row (λ _. (refl, refl)))

  pub unfavorite-SafeSouk : (user listing : ℕ) → SafeSouk (remove_favorite user listing s).1
  unfolding remove_favorite
  unfavorite-SafeSouk user listing =
      ground (arith, v, listing-IsSafe s.listings s.offers v listing fewer_row (λ _. (refl, refl)))

  pub rating-SafeSouk :
      (fresh now rater id score : ℕ) (comment : Option Text)
      → SafeSouk (create_rating fresh now rater id score comment s).1
  unfolding create_rating
  rating-SafeSouk fresh now rater id score comment = ground (arith, v)

  pub file-SafeSouk :
      (config : TrustConfig) (fresh now reporter offender : ℕ) (incident : IncidentType)
      (severity : ℕ)
      → SafeSouk (file_report config fresh now reporter offender incident severity s).1
  unfolding file_report
  file-SafeSouk config fresh now reporter offender incident severity = ground (arith, v)

  pub report-SafeSouk :
      (config : TrustConfig) (fresh now reporter id : ℕ) (incident : IncidentType) (severity : ℕ)
      → SafeSouk (report_listing config fresh now reporter id incident severity s).1
  unfolding report_listing
  report-SafeSouk config fresh now reporter id incident severity =
      elim (Option-cases (find id s.listings)) [
        | inl e ↦ ground (arith, v)
        | inr (l, e) ↦
            ground (arith, v, file-SafeSouk config fresh now reporter l.seller_id incident severity)
      ]

  pub dispute-SafeSouk :
      (fresh now filer id : ℕ) (reason : DisputeReason) (description evidence : Option Text)
      → SafeSouk (create_dispute fresh now filer id reason description evidence s).1
  unfolding create_dispute
  dispute-SafeSouk fresh now filer id reason description evidence = ground (arith, v)

  pub report_dispute-SafeSouk :
      (config : TrustConfig) (fresh now : ℕ) (d : Dispute)
      → SafeSouk (report_dispute config fresh now d s).1
  unfolding report_dispute
  report_dispute-SafeSouk config fresh now d =
      ground
        (arith, file-SafeSouk config fresh now d.filed_by_id d.against_id (incident_of d.reason) 3)

  pub reject-SafeSouk :
      (now id resolver : ℕ) (reason : Text) → SafeSouk (reject_dispute now id resolver reason s).1
  unfolding reject_dispute
  reject-SafeSouk now id resolver reason = ground (arith, v)

pub resolve-SafeSouk :
    (s : Souk)
    → SafeSouk s
    → (config : TrustConfig) (fresh now id resolver : ℕ) (text : Text) (with_report : Bool)
    → SafeSouk (resolve_dispute config fresh now id resolver text with_report s).1
unfolding resolve_dispute
resolve-SafeSouk s v config fresh now id resolver text with_report =
    elim (Option-cases (find id s.disputes)) [
      | inl e ↦ ground (arith, v)
      | inr (d, e) ↦ ground (
        arith,
        v,
        report_dispute-SafeSouk
            (record s { disputes = update id (end_row now resolver resolved text) s.disputes }) v
            config fresh now d,
      )
    ]

pub edited_same :
    (dto : ListingEdit) (l : Listing)
    → ((edited_row dto l).id ≡ l.id) × ((edited_row dto l).status ≡ l.status)
unfolding edited_row
edited_same dto l = (refl, refl)
