-- ===== src/Souk/Sale/Steps.antt =====
-- The invariant of the tables through every call, and what it says of every state that calls lead
-- to.
use madinaty_ai_core_mesh.Base.{ℕ, ◌≡◌, refl, subst, [], some, arith}
use madinaty_ai_core_mesh.Base.Table.{update, find-key}
use madinaty_ai_core_mesh.Trust.{TrustConfig}
use madinaty_ai_core_mesh.Souk.{Souk, Env, dispute_keyed, DeclineReason, offer_keyed, listing_keyed}
use madinaty_ai_core_mesh.Souk.Offers.{reason_or}
use madinaty_ai_core_mesh.Souk.Handovers.{reopen_row, cancel_row}
use madinaty_ai_core_mesh.Souk.Listings.{viewed_row, edited_row, new_listing}
use madinaty_ai_core_mesh.Souk.Cases.{
  create_offer_cases, accept_offer_cases, buyer_accept_counter_cases, decline_offer_cases,
  buyer_decline_counter_cases, withdraw_offer_cases, update_offer_cases, counter_offer_cases,
  buyer_counter_offer_cases, cancel_offer_cases, confirm_handover_cases, delete_listing_cases,
  create_listing_cases, get_listing_cases, update_listing_cases,
}
use madinaty_ai_core_mesh.Souk.Sale.History.{
  Call, step, IsFresh, Reach, here, next, lists, views, edits_listing, deletes, reports, bids,
  accepts, accepts_counter, withdraws, declines, declines_counter, counters, recounters,
  edits_offer, confirms, cancels, rates, likes, unlikes, disputes, resolves, rejects,
}
use madinaty_ai_core_mesh.Souk.Sale.Safety.{
  IsSafe, confirm-IsSafe, cancel-IsSafe, delete-IsSafe, listing-IsSafe, append_listing-IsSafe,
}
use madinaty_ai_core_mesh.Souk.Sale.Deals.{
  found_by_own, accept-IsSafe, accept_counter-IsSafe, counter-IsSafe,
}
use madinaty_ai_core_mesh.Souk.Sale.Rows.{
  checked_positive, decline-IsSafe, withdraw-IsSafe, edit-IsSafe, status-IsSafe, new_offer-IsSafe,
  favorite-SafeSouk, unfavorite-SafeSouk, rating-SafeSouk, report-SafeSouk, dispute-SafeSouk,
  reject-SafeSouk, resolve-SafeSouk, edited_same, SafeSouk,
}

pub step-SafeSouk :
    (env : Env) (config : TrustConfig) (s : Souk) (c : ℕ × Call)
    → SafeSouk s
    → IsFresh s c
    → SafeSouk (step env config s c)
unfolding step new_listing
step-SafeSouk env config s (now, lists fresh seller dto) v free =
    create_listing_cases IsSafe s v env fresh now seller dto
      (append_listing-IsSafe s.listings s.offers v (new_listing env fresh now seller dto) refl)
step-SafeSouk env config s (now, views id) v free =
    get_listing_cases IsSafe s v id
      (listing-IsSafe s.listings s.offers v id viewed_row (λ _. (refl, refl)))
step-SafeSouk env config s (now, edits_listing id seller dto) v free =
    update_listing_cases IsSafe s v id seller dto
      (listing-IsSafe s.listings s.offers v id (edited_row dto) (edited_same dto))
step-SafeSouk env config s (now, deletes id seller) v free =
    delete_listing_cases IsSafe s v now id seller
      (λ l f. delete-IsSafe s.listings s.offers v now id)
step-SafeSouk env config s (now, reports fresh id reporter incident severity) v free =
    report-SafeSouk s v config fresh now reporter id incident severity
step-SafeSouk env config s (now, bids fresh id buyer amount remark hold) v free =
    create_offer_cases IsSafe s v fresh now buyer id amount remark hold
      (λ l f ac. new_offer-IsSafe s v fresh now id buyer amount remark hold l free f ac)
step-SafeSouk env config s (now, accepts id seller) v free =
    accept_offer_cases IsSafe s v now id env seller
      (λ o l e f op ac. accept-IsSafe s.listings s.offers v now id o l e f ac op)
step-SafeSouk env config s (now, accepts_counter id buyer) v free =
    buyer_accept_counter_cases IsSafe s v now id env buyer (λ o l parent e f p pe ac.
      accept_counter-IsSafe s.listings s.offers v now id o l e f ac parent p pe)
step-SafeSouk env config s (now, withdraws id buyer) v free =
    withdraw_offer_cases IsSafe s v now id buyer (withdraw-IsSafe s v now id)
step-SafeSouk env config s (now, declines id seller reason) v free =
    decline_offer_cases IsSafe s v now id seller reason
      (decline-IsSafe s v now id (λ r. reason_or r.decline_reason reason))
step-SafeSouk env config s (now, declines_counter id buyer reason) v free =
    buyer_decline_counter_cases IsSafe s v now id buyer reason
      (decline-IsSafe s v now id (λ _. reason_or (some DeclineReason.declined_by_buyer) reason))
step-SafeSouk env config s (now, counters fresh id seller amount) v free =
    counter_offer_cases IsSafe s v now id fresh seller amount (λ o l e f ac paid.
      counter-IsSafe s.listings s.offers v now id o l e f ac fresh amount free
        (checked_positive amount l.asking_price paid))
step-SafeSouk env config s (now, recounters fresh id buyer amount) v free =
    buyer_counter_offer_cases IsSafe s v now id fresh buyer amount (λ o l e f ac paid.
      counter-IsSafe s.listings s.offers v now id o l e f ac fresh amount free
        (checked_positive amount l.asking_price paid))
step-SafeSouk env config s (now, edits_offer id buyer amount remark) v free =
    update_offer_cases IsSafe s v now id buyer amount remark (edit-IsSafe s v now id amount remark)
step-SafeSouk env config s (now, confirms fresh id user) v free =
    confirm_handover_cases IsSafe s v now id fresh user (status-IsSafe s v now id)
      (λ o e. confirm-IsSafe s.listings s.offers v now o (found_by_own s.offers id o e))
step-SafeSouk env config s (now, cancels fresh id caller reason) v free =
    cancel_offer_cases IsSafe s v now id fresh caller reason (λ o l e f ag.
      subst
        (λ j.
          IsSafe (update o.listing_id reopen_row s.listings)
            (update j (cancel_row now reason) s.offers))
        (find-key id s.offers o e)
        (cancel-IsSafe s.listings s.offers v now reason o l (found_by_own s.offers id o e) f ag))
step-SafeSouk env config s (now, rates fresh id rater score comment) v free =
    rating-SafeSouk s v fresh now rater id score comment
step-SafeSouk env config s (now, likes id user) v free = favorite-SafeSouk s v user id
step-SafeSouk env config s (now, unlikes id user) v free = unfavorite-SafeSouk s v user id
step-SafeSouk env config s (now, disputes fresh id filer reason description evidence) v free =
    dispute-SafeSouk s v fresh now filer id reason description evidence
step-SafeSouk env config s (now, resolves fresh id resolver resolution with_report) v free =
    resolve-SafeSouk s v config fresh now id resolver resolution with_report
step-SafeSouk env config s (now, rejects id resolver reason) v free =
    reject-SafeSouk s v now id resolver reason

pub Reach-SafeSouk :
    {env : Env} {config : TrustConfig} {s t : Souk} → SafeSouk s → Reach env config s t → SafeSouk t
Reach-SafeSouk v here = v
Reach-SafeSouk {env} {config} v (next {t} c r free) =
    step-SafeSouk env config t c (Reach-SafeSouk v r) free

-- From a database without offers.
pub start-SafeSouk : (s : Souk) → s.offers ≡ [] → SafeSouk s
start-SafeSouk s e = record {
  sound = record {
    distinct = rw e tt;
    settled = rw e tt;
    short = rw e tt;
    priced = rw e tt;
    one_root = λ listing buyer. rw e (omega arith);
  };
  single = λ listing. rw e (omega arith);
  answered = rw e tt;
}
