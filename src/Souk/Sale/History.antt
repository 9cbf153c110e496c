-- ===== src/Souk/Sale/History.antt =====
-- Histories of the marketplace: one call of a handler after the other, each at its time, with the
-- ids that the database draws.
use madinaty_ai_core_mesh.Base.{ℕ, ◌≡◌, Bool, Option, none}
use madinaty_ai_core_mesh.Base.Text.{Text}
use madinaty_ai_core_mesh.Base.Table.{find}
use madinaty_ai_core_mesh.Core.{IncidentType}
use madinaty_ai_core_mesh.Trust.{TrustConfig}
use madinaty_ai_core_mesh.Souk.{Souk, Env, DisputeReason, offer_keyed}
use madinaty_ai_core_mesh.Souk.Listings.{
  ListingInput, ListingEdit, create_listing, get_listing, update_listing, delete_listing,
}
use madinaty_ai_core_mesh.Souk.Offers.{
  create_offer, accept_offer, decline_offer, counter_offer, withdraw_offer, update_offer,
}
use madinaty_ai_core_mesh.Souk.Counters.{
  buyer_accept_counter, buyer_decline_counter, buyer_counter_offer,
}
use madinaty_ai_core_mesh.Souk.Handovers.{confirm_handover, cancel_offer}
use madinaty_ai_core_mesh.Souk.Ratings.{create_rating}
use madinaty_ai_core_mesh.Souk.Favorites.{add_favorite, remove_favorite}
use madinaty_ai_core_mesh.Souk.Disputes.{create_dispute, resolve_dispute, reject_dispute}
use madinaty_ai_core_mesh.Souk.Reports.{report_listing}

-- Every handler of the service that writes, with its caller last among the ids.
pub data Call : Type 0 where
  lists : ℕ → ℕ → ListingInput → Call
  views : ℕ → Call
  edits_listing : ℕ → ℕ → ListingEdit → Call
  deletes : ℕ → ℕ → Call
  reports : ℕ → ℕ → ℕ → IncidentType → ℕ → Call
  bids : ℕ → ℕ → ℕ → ℕ → Option Text → Option ℕ → Call
  accepts accepts_counter withdraws : ℕ → ℕ → Call
  declines : ℕ → ℕ → Option Text → Call
  declines_counter : ℕ → ℕ → Option Text → Call
  counters recounters : ℕ → ℕ → ℕ → ℕ → Call
  edits_offer : ℕ → ℕ → Option ℕ → Option Text → Call
  confirms : ℕ → ℕ → ℕ → Call
  cancels : ℕ → ℕ → ℕ → Text → Call
  rates : ℕ → ℕ → ℕ → ℕ → Option Text → Call
  likes unlikes : ℕ → ℕ → Call
  disputes : ℕ → ℕ → ℕ → DisputeReason → Option Text → Option Text → Call
  resolves : ℕ → ℕ → ℕ → Text → Bool → Call
  rejects : ℕ → ℕ → Text → Call

-- The state after a call, whether it returned or threw.
unfoldable pub step : Env → TrustConfig → Souk → ℕ × Call → Souk
step env config s (now, lists fresh seller dto) = (create_listing env fresh now seller dto s).1
step env config s (now, views id) = (get_listing id s).1
step env config s (now, edits_listing id seller dto) = (update_listing id seller dto s).1
step env config s (now, deletes id seller) = (delete_listing now id seller s).1
step env config s (now, reports fresh id reporter incident severity) =
    (report_listing config fresh now reporter id incident severity s).1
step env config s (now, bids fresh id buyer amount remark hold) =
    (create_offer fresh now buyer id amount remark hold s).1
step env config s (now, accepts id seller) = (accept_offer env now id seller s).1
step env config s (now, accepts_counter id buyer) = (buyer_accept_counter env now id buyer s).1
step env config s (now, withdraws id buyer) = (withdraw_offer now id buyer s).1
step env config s (now, declines id seller reason) = (decline_offer now id seller reason s).1
step env config s (now, declines_counter id buyer reason) =
    (buyer_decline_counter now id buyer reason s).1
step env config s (now, counters fresh id seller amount) =
    (counter_offer fresh now id seller amount s).1
step env config s (now, recounters fresh id buyer amount) =
    (buyer_counter_offer fresh now id buyer amount s).1
step env config s (now, edits_offer id buyer amount remark) =
    (update_offer now id buyer amount remark s).1
step env config s (now, confirms fresh id user) = (confirm_handover fresh now id user s).1
step env config s (now, cancels fresh id caller reason) =
    (cancel_offer fresh now id caller reason s).1
step env config s (now, rates fresh id rater score comment) =
    (create_rating fresh now rater id score comment s).1
step env config s (now, likes id user) = (add_favorite user id s).1
step env config s (now, unlikes id user) = (remove_favorite user id s).1
step env config s (now, disputes fresh id filer reason description evidence) =
    (create_dispute fresh now filer id reason description evidence s).1
step env config s (now, resolves fresh id resolver resolution with_report) =
    (resolve_dispute config fresh now id resolver resolution with_report s).1
step env config s (now, rejects id resolver reason) = (reject_dispute now id resolver reason s).1

-- A new offer gets an id that no offer has.
abbrev pub IsFresh : Souk → ℕ × Call → Type 0
IsFresh s (_, bids fresh _ _ _ _ _) = find fresh s.offers ≡ none
IsFresh s (_, counters fresh _ _ _) = find fresh s.offers ≡ none
IsFresh s (_, recounters fresh _ _ _) = find fresh s.offers ≡ none
IsFresh s (_, _) = Unit {0}

-- The states that calls lead to.
pub data Reach (env : Env) (config : TrustConfig) (s : Souk) : Souk → Type 0 where
  here : Reach env config s s
  next :
      {t : Souk} (c : ℕ × Call)
      → Reach env config s t
      → IsFresh t c
      → Reach env config s (step env config t c)
