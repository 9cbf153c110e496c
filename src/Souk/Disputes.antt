-- ===== src/Souk/Disputes.antt =====
-- The disputes of soukelkanto.service.ts: `createDispute`, `listMyDisputes`, `resolveDispute` and
-- `rejectDispute`.
use madinaty_ai_core_mesh.Base.{
  ℕ, ◌-◌, ◌*◌, Bool, true, false, ◌&&◌, ◌||◌, not, List, [], ◌∷◌, ◌++◌, Option, none, some, ltb,
  ◌==◌, if◌then◌else◌, any, keep_if, or_else,
}
use mathlib.Core.List.{reverse}
use madinaty_ai_core_mesh.Base.Text.{Text}
use madinaty_ai_core_mesh.Base.Action.{
  Action, ok, err, modify, or_throw, pure, throw_if, ◌>>=◌, ◌>>◌,
}
use madinaty_ai_core_mesh.Base.Table.{find, update}
use madinaty_ai_core_mesh.Core.{IncidentType, fraud, abuse, policy_violation}
use madinaty_ai_core_mesh.Trust.{TrustConfig}
use madinaty_ai_core_mesh.Souk.{
  Souk, Offer, OfferStatus, Handover, Dispute, DisputeReason, DisputeStatus, Error, handover_keyed,
  dispute_keyed, confirmed, cancelled, opened, resolved, rejected, item_not_as_described,
  item_defective, no_show, payment_issue, counterfeit, seller_backed_out, buyer_backed_out,
  safety_concern, event, notice, dispute_opened, offer_declined_notice, dispute_not_found,
  not_a_party, dispute_already_open, dispute_window_closed, dispute_not_allowed,
  dispute_already_resolved, constraint_violated, is_party, is_live,
}
use madinaty_ai_core_mesh.Souk.Gates.{read, tell, get_offer_row}
use madinaty_ai_core_mesh.Souk.Handovers.{counterpart}
use madinaty_ai_core_mesh.Souk.Reports.{file_report}

abbrev pub dispute_window_ms : ℕ
dispute_window_ms = 48 * 60 * 60 * 1000

abbrev pub is_opened : DisputeStatus → Bool
is_opened opened = true
is_opened _ = false

-- `['ACCEPTED', 'HANDOVER_PENDING', 'CONFIRMED', 'CANCELLED']`
abbrev pub is_disputable : OfferStatus → Bool
is_disputable cancelled = true
is_disputable s = is_live s

-- The states in which the window counts.
abbrev pub is_over : OfferStatus → Bool
is_over confirmed = true
is_over cancelled = true
is_over _ = false

-- `offer.handover?.bothConfirmedAt ?? offer.updatedAt`
abbrev pub reference_time : Option Handover → Offer → ℕ
reference_time none o = o.updated_at
reference_time (some h) o = or_else h.both_confirmed_at o.updated_at

-- The last check is the unique index on `offerId` in prisma/schema.prisma.
unfoldable pub create_dispute :
    ℕ → ℕ → ℕ → ℕ → DisputeReason → Option Text → Option Text → Action Error Souk Dispute
create_dispute fresh now filer offer_id reason description evidence = do
  offer ← get_offer_row offer_id
  handover ← read λ s. find offer_id s.handovers
  throw_if (not (is_party filer offer)) not_a_party
  busy ← read λ s. any (λ d. d.offer_id == offer_id && is_opened d.status) s.disputes
  throw_if busy dispute_already_open
  throw_if (not (is_disputable offer.status)) (dispute_not_allowed offer.status)
  throw_if (is_over offer.status && ltb dispute_window_ms (now - reference_time handover offer))
      dispute_window_closed
  filed ← read λ s. any (λ d. d.offer_id == offer_id) s.disputes
  throw_if filed constraint_violated
  let dispute : Dispute = record {
    id = fresh;
    offer_id = offer_id;
    filed_by_id = filer;
    against_id = counterpart filer offer;
    reason = reason;
    description = description;
    evidence_r2_key = evidence;
    status = opened;
    resolved_at = none;
    resolved_by_id = none;
    resolution = none;
    report_row_id = none;
  }
  modify λ s. record s { disputes = s.disputes ++ dispute ∷ [] }
  tell (event dispute_opened dispute.against_id fresh)
  tell (notice offer_declined_notice dispute.against_id offer.amount none)
  pure dispute

unfoldable pub list_my_disputes : ℕ → Action Error Souk (List Dispute)
list_my_disputes user =
    read λ s. reverse (keep_if (λ d. d.filed_by_id == user || d.against_id == user) s.disputes)

-- `incidentMap`
unfoldable pub incident_of : DisputeReason → IncidentType
incident_of counterfeit = fraud
incident_of safety_concern = abuse
incident_of seller_backed_out = policy_violation
incident_of buyer_backed_out = policy_violation
incident_of no_show = policy_violation
incident_of item_not_as_described = policy_violation
incident_of item_defective = policy_violation
incident_of payment_issue = fraud
incident_of DisputeReason.other = IncidentType.other

-- The end of a dispute, one way or the other.
abbrev pub end_row : ℕ → ℕ → DisputeStatus → Text → Dispute → Dispute
end_row now resolver status text d = record d {
  status = status;
  resolved_at = some now;
  resolved_by_id = some resolver;
  resolution = some text;
}

abbrev pub reported_row : ℕ → Dispute → Dispute
reported_row report d = record d { report_row_id = some report }

-- The report of a resolved dispute, in its `try`: a failure is logged, and what was written before
-- it stays.
unfoldable pub report_dispute : TrustConfig → ℕ → ℕ → Dispute → Action Error Souk (Unit {0})
unfolding incident_of
report_dispute config fresh now d s =
    let (r, s') =
      file_report config fresh now d.filed_by_id d.against_id (incident_of d.reason) 3 s in
    elim r [
      | ok _ ↦ (ok tt, record s' { disputes = update d.id (reported_row fresh) s'.disputes })
      | err _ ↦ (ok tt, s')
    ]

unfoldable pub resolve_dispute :
    TrustConfig → ℕ → ℕ → ℕ → ℕ → Text → Bool → Action Error Souk (Option Dispute)
resolve_dispute config fresh now dispute_id resolver resolution with_report = do
  row ← read λ s. find dispute_id s.disputes
  dispute ← or_throw row dispute_not_found
  throw_if (not (is_opened dispute.status)) dispute_already_resolved
  modify λ s. record s {
    disputes = update dispute_id (end_row now resolver resolved resolution) s.disputes;
  }
  updated ← read λ s. find dispute_id s.disputes
  if with_report then report_dispute config fresh now dispute else pure tt
  pure updated

unfoldable pub reject_dispute : ℕ → ℕ → ℕ → Text → Action Error Souk (Option Dispute)
reject_dispute now dispute_id resolver reason = do
  row ← read λ s. find dispute_id s.disputes
  dispute ← or_throw row dispute_not_found
  throw_if (not (is_opened dispute.status)) dispute_already_resolved
  modify λ s. record s {
    disputes = update dispute_id (end_row now resolver rejected reason) s.disputes;
  }
  read λ s. find dispute_id s.disputes
