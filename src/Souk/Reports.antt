-- ===== src/Souk/Reports.antt =====
-- Reports: `file` of apps/core-hub/src/modules/reports/reports.service.ts, and `reportListing` of
-- soukelkanto.service.ts.
use madinaty_ai_core_mesh.Base.{ℕ, false, [], ◌∷◌, ◌++◌, ◌==◌}
use madinaty_ai_core_mesh.Base.Action.{
  Action, ok, err, modify, or_throw, pure, throw_if, ◌>>=◌, ◌>>◌,
}
use madinaty_ai_core_mesh.Base.Table.{find}
use madinaty_ai_core_mesh.Core.{IncidentType, Report}
use madinaty_ai_core_mesh.Trust.{TrustConfig, TrustScoreResult, recalculate}
use madinaty_ai_core_mesh.Souk.{
  Souk, Error, listing_keyed, event, user_reported, user_not_found, listing_not_found,
  cannot_report_own_listing,
}
use madinaty_ai_core_mesh.Souk.Gates.{read, tell}

abbrev pub add_report : Report → Souk → Souk
add_report r s = record s { core = record (s.core) { reports = s.core.reports ++ r ∷ [] } }

-- `trust.recalculate`, on the part of the state that it knows.
abbrev pub recalculate_trust : TrustConfig → ℕ → ℕ → Action Error Souk TrustScoreResult
recalculate_trust config now user s =
    let (r, core) = recalculate config now user s.core in
    (elim r [ ok t ↦ ok t | err _ ↦ err user_not_found ], record s { core = core })

-- `isPlatformWideBanned` is left out by every caller in the marketplace, so it is false.
unfoldable pub file_report :
    TrustConfig → ℕ → ℕ → ℕ → ℕ → IncidentType → ℕ → Action Error Souk (Report × TrustScoreResult)
file_report config fresh now reporter offender incident severity = do
  let report : Report = record {
    id = fresh;
    reporter_id = reporter;
    offender_id = offender;
    incident_type = incident;
    severity = severity;
    is_platform_wide_banned = false;
  }
  modify (add_report report)
  tell (event user_reported offender fresh)
  trust ← recalculate_trust config now offender
  pure (report, trust)

unfoldable pub report_listing :
    TrustConfig → ℕ → ℕ → ℕ → ℕ → IncidentType → ℕ → Action Error Souk (Report × TrustScoreResult)
unfolding file_report
report_listing config fresh now reporter listing_id incident severity = do
  row ← read λ s. find listing_id s.listings
  listing ← or_throw row listing_not_found
  throw_if (listing.seller_id == reporter) cannot_report_own_listing
  file_report config fresh now reporter listing.seller_id incident severity
