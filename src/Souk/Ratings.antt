-- ===== src/Souk/Ratings.antt =====
-- The ratings of soukelkanto.service.ts: `createRating`.
use madinaty_ai_core_mesh.Base.{
  ℕ, Bool, true, false, ◌&&◌, not, [], ◌∷◌, ◌++◌, Option, none, some, ltb, ◌==◌, if◌then◌else◌, any,
  is_some,
}
use madinaty_ai_core_mesh.Base.Text.{Text}
use madinaty_ai_core_mesh.Base.Action.{Action, modify, pure, throw_if, ◌>>=◌, ◌>>◌}
use madinaty_ai_core_mesh.Base.Table.{find}
use madinaty_ai_core_mesh.Souk.{
  Souk, Rating, Handover, OfferStatus, Error, handover_keyed, confirmed, event, rating_received,
  handover_not_confirmed, handover_not_complete, rating_window_closed, already_rated,
}
use madinaty_ai_core_mesh.Souk.Gates.{read, tell, get_offer_row}
use madinaty_ai_core_mesh.Souk.Handovers.{counterpart}

abbrev pub is_confirmed : OfferStatus → Bool
is_confirmed confirmed = true
is_confirmed _ = false

-- `!offer.handover || !offer.handover.bothConfirmedAt`
abbrev pub is_complete : Option Handover → Bool
is_complete none = false
is_complete (some h) = is_some h.both_confirmed_at

-- `ratingWindowEndsAt && new Date() > ratingWindowEndsAt`
abbrev pub window_over : ℕ → Option Handover → Bool
window_over now none = false
window_over now (some h) = elim h.rating_window_ends_at [ none ↦ false | some end ↦ ltb end now ]

-- `severityMap[score] ?? 0`
unfoldable pub severity_of : ℕ → ℕ
severity_of score = if score == 3 then 1 else if score == 2 then 3 else if score == 1 then 5 else 0

unfoldable pub create_rating : ℕ → ℕ → ℕ → ℕ → ℕ → Option Text → Action Error Souk Rating
unfolding severity_of
create_rating fresh now rater offer_id score comment = do
  offer ← get_offer_row offer_id
  handover ← read λ s. find offer_id s.handovers
  throw_if (not (is_confirmed offer.status)) handover_not_confirmed
  throw_if (not (is_complete handover)) handover_not_complete
  throw_if (window_over now handover) rating_window_closed
  rated ← read λ s. any (λ r. r.offer_id == offer_id && r.rater_id == rater) s.ratings
  throw_if rated already_rated
  let rating : Rating = record {
    id = fresh;
    offer_id = offer_id;
    rater_id = rater;
    target_id = counterpart rater offer;
    score = score;
    comment = comment;
    mapped_severity = severity_of score;
  }
  modify λ s. record s { ratings = s.ratings ++ rating ∷ [] }
  tell (event rating_received rating.target_id offer_id)
  pure rating
