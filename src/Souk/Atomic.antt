-- ===== src/Souk/Atomic.antt =====
-- The handlers that throw leave the marketplace as it was.
use madinaty_ai_core_mesh.Base.{ℕ, ◌≡◌, sym, subst, Option, some, arith}
use madinaty_ai_core_mesh.Base.Text.{Text}
use madinaty_ai_core_mesh.Base.Action.{Result, ok, err, IsAtomic}
use madinaty_ai_core_mesh.Tokens.{individual, souk_offer_hold}
use madinaty_ai_core_mesh.Tokens.Spending.{spend-IsAtomic}
use madinaty_ai_core_mesh.Souk.{Souk, Env, Error, Offer, offer_keyed, listing_keyed}
use madinaty_ai_core_mesh.Souk.Gates.{spend_hold}
use madinaty_ai_core_mesh.Souk.Offers.{
  create_offer, accept_offer, accept_check, accept_commit, settle_deal, decline_offer,
  counter_offer, put_counter, withdraw_offer, update_offer,
}
use madinaty_ai_core_mesh.Souk.Counters.{
  buyer_accept_counter, buyer_decline_counter, buyer_counter_offer,
}
use madinaty_ai_core_mesh.Souk.Handovers.{
  confirm_handover, confirm_with, finalize_handover, release_hold, cancel_offer,
}
use madinaty_ai_core_mesh.Souk.Cases.{with_rows}

hold-IsAtomic : (now : ℕ) (o : Offer) (s : Souk) → IsAtomic s (spend_hold now o s)
hold-IsAtomic now o s =
    ground (arith, spend-IsAtomic now o.buyer_id souk_offer_hold individual (some o.id) s.bank)

commit-IsAtomic : (now : ℕ) (o : Offer) (s : Souk) → IsAtomic s (accept_commit now o s)
unfolding accept_commit settle_deal
commit-IsAtomic now o s = ground (arith, hold-IsAtomic now o s)

check_keeps : (env : Env) (now id seller : ℕ) (s : Souk) → (accept_check env now id seller s).1 ≡ s
unfolding accept_check
check_keeps env now id seller s =
    with_rows s id (λ e. ground arith) (λ o e f. ground arith) (λ o l e f. ground arith)

-- A check that leaves the state alone, before writes that throw without a trace.
then_commit :
    (now : ℕ) (s : Souk) (x : Result Error Offer × Souk)
    → x.1 ≡ s
    → IsAtomic {E = Error} {A = Option Offer} s
        (elim (x.0) [ ok o ↦ accept_commit now o (x.1) | err e ↦ (err e, x.1) ])
then_commit now s (ok o, t) h =
    subst (λ t. IsAtomic s (accept_commit now o t)) (sym h) (commit-IsAtomic now o s)
then_commit now s (err e, t) h = h

-- `acceptOffer` either accepts the offer or changes nothing: neither the buyer's wallet nor an
-- offer, a listing or an event, whichever check or token payment fails.
pub accept_offer-IsAtomic :
    (env : Env) (now id seller : ℕ) (s : Souk) → IsAtomic s (accept_offer env now id seller s)
unfolding accept_offer
accept_offer-IsAtomic env now id seller s =
    then_commit now s (accept_check env now id seller s) (check_keeps env now id seller s)

module _ (s : Souk) where
  create_offer-IsAtomic :
      (fresh now buyer id amount : ℕ) (text : Option Text) (hold : Option ℕ)
      → IsAtomic s (create_offer fresh now buyer id amount text hold s)
  unfolding create_offer
  create_offer-IsAtomic fresh now buyer id amount text hold = ground arith

  decline_offer-IsAtomic :
      (now id user : ℕ) (text : Option Text) → IsAtomic s (decline_offer now id user text s)
  unfolding decline_offer
  decline_offer-IsAtomic now id user text =
      with_rows s id (λ e. ground arith) (λ o e f. ground arith) (λ o l e f. ground arith)

  counter_offer-IsAtomic :
      (fresh now id user amount : ℕ) → IsAtomic s (counter_offer fresh now id user amount s)
  unfolding counter_offer put_counter
  counter_offer-IsAtomic fresh now id user amount =
      with_rows s id (λ e. ground arith) (λ o e f. ground arith) (λ o l e f. ground arith)

  withdraw_offer-IsAtomic : (now id user : ℕ) → IsAtomic s (withdraw_offer now id user s)
  unfolding withdraw_offer
  withdraw_offer-IsAtomic now id user =
      with_rows s id (λ e. ground arith) (λ o e f. ground arith) (λ o l e f. ground arith)

  update_offer-IsAtomic :
      (now id user : ℕ) (amount : Option ℕ) (text : Option Text)
      → IsAtomic s (update_offer now id user amount text s)
  unfolding update_offer
  update_offer-IsAtomic now id user amount text =
      with_rows s id (λ e. ground arith) (λ o e f. ground arith) (λ o l e f. ground arith)

  buyer_decline_counter-IsAtomic :
      (now id user : ℕ) (text : Option Text) → IsAtomic s (buyer_decline_counter now id user text s)
  unfolding buyer_decline_counter
  buyer_decline_counter-IsAtomic now id user text =
      with_rows s id (λ e. ground arith) (λ o e f. ground arith) (λ o l e f. ground arith)

  buyer_counter_offer-IsAtomic :
      (fresh now id user amount : ℕ) → IsAtomic s (buyer_counter_offer fresh now id user amount s)
  unfolding buyer_counter_offer put_counter
  buyer_counter_offer-IsAtomic fresh now id user amount =
      with_rows s id (λ e. ground arith) (λ o e f. ground arith) (λ o l e f. ground arith)

  cancel_offer-IsAtomic :
      (fresh now id user : ℕ) (reason : Text) → IsAtomic s (cancel_offer fresh now id user reason s)
  unfolding cancel_offer release_hold
  cancel_offer-IsAtomic fresh now id user reason =
      with_rows s id (λ e. ground arith) (λ o e f. ground arith) (λ o l e f. ground arith)

  buyer_accept_counter-IsAtomic :
      (env : Env) (now id user : ℕ) → IsAtomic s (buyer_accept_counter env now id user s)
  unfolding buyer_accept_counter settle_deal
  buyer_accept_counter-IsAtomic env now id user =
      with_rows s id (λ e. ground arith) (λ o e f. ground arith)
        (λ o l e f. ground (arith, hold-IsAtomic now o s))

  confirm_handover-IsAtomic :
      (fresh now id user : ℕ) → IsAtomic s (confirm_handover fresh now id user s)
  unfolding confirm_handover confirm_with finalize_handover release_hold
  confirm_handover-IsAtomic fresh now id user = ground arith

-- The other handlers of a negotiation and of the handover that follows either return or change
-- nothing: a bid, with a token hold or without, a decline, a counter, a withdrawal and an edit of
-- an offer, of its amount, its note or both, the buyer's three answers to a counter, a confirmation
-- and a cancellation.
pub refusals_change_nothing :
    (env : Env) (fresh now id user amount : ℕ) (hold edit : Option ℕ) (text : Option Text)
    (reason : Text) (s : Souk)
    → IsAtomic s (create_offer fresh now user id amount text hold s)
      × IsAtomic s (decline_offer now id user text s)
      × IsAtomic s (counter_offer fresh now id user amount s)
      × IsAtomic s (withdraw_offer now id user s)
      × IsAtomic s (update_offer now id user edit text s)
      × IsAtomic s (buyer_accept_counter env now id user s)
      × IsAtomic s (buyer_decline_counter now id user text s)
      × IsAtomic s (buyer_counter_offer fresh now id user amount s)
      × IsAtomic s (confirm_handover fresh now id user s)
      × IsAtomic s (cancel_offer fresh now id user reason s)
refusals_change_nothing env fresh now id user amount hold edit text reason s = (
  create_offer-IsAtomic s fresh now user id amount text hold,
  decline_offer-IsAtomic s now id user text,
  counter_offer-IsAtomic s fresh now id user amount,
  withdraw_offer-IsAtomic s now id user,
  update_offer-IsAtomic s now id user edit text,
  buyer_accept_counter-IsAtomic s env now id user,
  buyer_decline_counter-IsAtomic s now id user text,
  buyer_counter_offer-IsAtomic s fresh now id user amount,
  confirm_handover-IsAtomic s fresh now id user,
  cancel_offer-IsAtomic s fresh now id user reason,
)
