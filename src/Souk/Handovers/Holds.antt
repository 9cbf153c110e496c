-- ===== src/Souk/Handovers/Holds.antt =====
-- What becomes of a token hold when a deal ends.
use madinaty_ai_core_mesh.Base.{
  ℕ, ◌≡◌, refl, ap, List, [], ◌∷◌, ◌++◌, some, arith, is_some, inl, inr, Option-cases, Bool-cases,
}
use madinaty_ai_core_mesh.Base.Int.{ℤ, pos, ◌+ℤ◌, +ℤ_parts, eq_of_parts}
use madinaty_ai_core_mesh.Base.Text.{Text, codes}
use madinaty_ai_core_mesh.Base.Table.{find, update, find-append}
use madinaty_ai_core_mesh.Tokens.{
  Wallet, individual, credit, upsert_wallet, set_balance, wallet_keyed,
}
use madinaty_ai_core_mesh.Souk.{Souk, offer_keyed, listing_keyed, handover_keyed}
use madinaty_ai_core_mesh.Souk.Cases.{with_rows}
use madinaty_ai_core_mesh.Souk.Handovers.{
  release_hold, release_cancelled, cancel_offer, confirm_handover, confirm_with, finalize_handover,
}

plus_zero : (b : ℤ) → b +ℤ pos 0 ≡ b
plus_zero b = eq_of_parts (b +ℤ pos 0) b (omega (arith, +ℤ_parts b (pos 0)))

update_same :
    (i : ℕ) (f : Wallet → Wallet) (ws : List Wallet) → ((w : Wallet) → f w ≡ w) → update i f ws ≡ ws
unfolding update
update_same i f [] h = refl
update_same i f (w ∷ ws) h = ground (arith, h w, update_same i f ws h)

upsert_nothing :
    (fresh user j : ℕ) (ws : List Wallet) (w : Wallet)
    → find j ws ≡ some w
    → find j (upsert_wallet fresh user (pos 0) individual ws) ≡ some w
unfolding upsert_wallet
upsert_nothing fresh user j ws w e = elim (Bool-cases (is_some (find user ws))) [
  | inl there ↦
      rw
        (
          there,
          update_same user (set_balance individual (λ b. b +ℤ pos 0)) ws
              (λ v. ap (λ b. record v { individual_tokens = b }) (plus_zero v.individual_tokens)),
        )
        e
  | inr gone ↦ rw gone (
      find-append j ws
        (record { id = fresh; user_id = user; business_tokens = pos 0; individual_tokens = pos 0 }
          ∷ [])
        w e)
]

abbrev KeepsWallet : ℕ → Wallet → Souk → Type 0
KeepsWallet j w s = find j s.bank.wallets ≡ some w

module _ (s : Souk) (j : ℕ) (w : Wallet) (e : find j s.bank.wallets ≡ some w) where
  credit_nothing :
      (fresh now user : ℕ) (reason : Text)
      → find j (credit fresh now user (pos 0) individual (some reason) s.bank).1.wallets ≡ some w
  unfolding credit
  credit_nothing fresh now user reason =
      ground (arith, upsert_nothing fresh user j s.bank.wallets w e)

  cancel-KeepsWallet :
      (fresh now id user : ℕ) (reason : Text)
      → KeepsWallet j w (cancel_offer fresh now id user reason s).1
  unfolding cancel_offer release_hold release_cancelled
  cancel-KeepsWallet fresh now id user reason =
      with_rows s id (λ a. ground (arith, e)) (λ o a b. ground (arith, e))
        (λ o l a b. ground (
          arith,
          e,
          credit_nothing fresh now o.buyer_id
              (codes "Offer cancelled — token hold released (" ++ (reason ++ codes ")")),
        ))

  confirm-KeepsWallet :
      (fresh now id user : ℕ) → KeepsWallet j w (confirm_handover fresh now id user s).1
  unfolding confirm_handover confirm_with finalize_handover release_hold
  confirm-KeepsWallet fresh now id user = elim (Option-cases (find id s.offers)) [
    | inl a ↦ ground (arith, e)
    | inr (o, a) ↦ ground (
      arith,
      e,
      credit_nothing fresh now o.buyer_id (codes "Handover complete — token hold released"),
    )
  ]

  -- A cancellation and a confirmation leave the wallet of every user as it was, the buyer's too:
  -- what `acceptOffer` has spent for the hold stays spent.
  pub endings_refund_nothing :
      (fresh now id user : ℕ) (reason : Text)
      → (find j (cancel_offer fresh now id user reason s).1.bank.wallets ≡ some w)
        × (find j (confirm_handover fresh now id user s).1.bank.wallets ≡ some w)
  endings_refund_nothing fresh now id user reason =
      (cancel-KeepsWallet fresh now id user reason, confirm-KeepsWallet fresh now id user)
