-- ===== src/Souk/Sale/Race.antt =====
-- Two calls of `acceptOffer` on one listing of which each makes its checks before the other writes.
use madinaty_ai_core_mesh.Base.{
  ℕ, ◌≡◌, ◌≢◌, ◌∙◌, ap, refl, sym, true, false, List, [], ◌∷◌, Option, none, some, arith,
  Option-cases, inl, inr,
}
use madinaty_ai_core_mesh.Base.Action.{ok}
use madinaty_ai_core_mesh.Base.Table.{
  find, update, update_where, find-update_self, find-update_ne, find-update_where_in,
  find-update_where_out,
}
use madinaty_ai_core_mesh.Souk.{
  Souk, Env, Offer, OfferStatus, accepted, offer_keyed, listing_keyed, is_open,
}
use madinaty_ai_core_mesh.Souk.Gates.{has_hold}
use madinaty_ai_core_mesh.Souk.Offers.{
  accept_check, accept_commit, settle_deal, is_sibling, cascade_decline, accept_row,
}
use madinaty_ai_core_mesh.Souk.Sale.Deals.{found_by_own}

-- The checks that pass: the offer that they return is the row, and it is open.
checked_row :
    (env : Env) (now id seller : ℕ) (s : Souk) (o : Offer)
    → (accept_check env now id seller s).0 ≡ ok o
    → (find id s.offers ≡ some o) × (is_open o.status ≡ true)
unfolding accept_check
checked_row env now id seller s o h = elim (Option-cases (find id s.offers)) [
  | inl e ↦ ground arith
  | inr (r, e) ↦ elim (Option-cases (find r.listing_id s.listings)) [
    | inl f ↦ ground arith
    | inr (l, f) ↦ ground arith
  ]
]

-- The offers after the writes of an accept without a hold.
commit_offers :
    (now : ℕ) (o : Offer) (s : Souk)
    → has_hold o ≡ false
    → (accept_commit now o s).1.offers
      ≡ update o.id
          (accept_row now)
          (update_where (is_sibling o.listing_id (o.id ∷ [])) (cascade_decline now) s.offers)
unfolding accept_commit settle_deal
commit_offers now o s h = ground arith

abbrev pub status_of : Option Offer → Option OfferStatus
status_of none = none
status_of (some o) = some o.status

abbrev pub status_at : ℕ → Souk → Option OfferStatus
status_at id s = status_of (find id s.offers)

-- The offers after the deal on `o`.
abbrev dealt_offers : ℕ → Offer → List Offer → List Offer
dealt_offers now o os =
    update o.id (accept_row now)
      (update_where (is_sibling o.listing_id (o.id ∷ [])) (cascade_decline now) os)

module _ (now : ℕ) (o p : Offer) (os : List Offer) (ne : o.id ≢ p.id) where
  dealt_self : find o.id os ≡ some o → find o.id (dealt_offers now o os) ≡ some (accept_row now o)
  unfolding is_sibling
  dealt_self e =
      find-update_self o.id (accept_row now)
        (update_where (is_sibling o.listing_id (o.id ∷ [])) (cascade_decline now) os) o (λ _. refl)
        (find-update_where_out o.id (is_sibling o.listing_id (o.id ∷ [])) (cascade_decline now) os o
          (λ _. refl) e (ground arith))

  -- Another open offer on the listing is declined.
  dealt_sibling :
      find p.id os ≡ some p
      → is_open p.status ≡ true
      → o.listing_id ≡ p.listing_id
      → find p.id (dealt_offers now o os) ≡ some (cascade_decline now p)
  unfolding is_sibling
  dealt_sibling e op same =
      find-update_ne o.id p.id (accept_row now)
        (update_where (is_sibling o.listing_id (o.id ∷ [])) (cascade_decline now) os) (λ _. refl)
        (λ h. ne (sym h))
      ∙ find-update_where_in p.id (is_sibling o.listing_id (o.id ∷ [])) (cascade_decline now) os p
          (λ _. refl) e (ground arith)

  -- An offer that is not open stays as it is.
  dealt_closed :
      find p.id os ≡ some p → is_open p.status ≡ false → find p.id (dealt_offers now o os) ≡ some p
  unfolding is_sibling
  dealt_closed e cl =
      find-update_ne o.id p.id (accept_row now)
        (update_where (is_sibling o.listing_id (o.id ∷ [])) (cascade_decline now) os) (λ _. refl)
        (λ h. ne (sym h))
      ∙ find-update_where_out p.id (is_sibling o.listing_id (o.id ∷ [])) (cascade_decline now) os p
          (λ _. refl) e (ground arith)

-- Of the offers of one listing that passed the checks of `acceptOffer` on the same database, with
-- no token holds, both are accepted once both calls have made their writes: the second write goes
-- by the first read.
pub accept_race :
    (env : Env) (now id jd seller : ℕ) (s : Souk) (o p : Offer)
    → (accept_check env now id seller s).0 ≡ ok o
    → (accept_check env now jd seller s).0 ≡ ok p
    → o.id ≢ p.id
    → o.listing_id ≡ p.listing_id
    → has_hold o ≡ false
    → has_hold p ≡ false
    → (status_at o.id (accept_commit now p (accept_commit now o s).1).1 ≡ some accepted)
      × (status_at p.id (accept_commit now p (accept_commit now o s).1).1 ≡ some accepted)
accept_race env now id jd seller s o p ho hp ne same no_o no_p =
    let r = checked_row env now id seller s o ho in
    let q = checked_row env now jd seller s p hp in
    let mid = dealt_self now o p s.offers ne (found_by_own s.offers id o r.0) in
    let other = dealt_sibling now o p s.offers ne (found_by_own s.offers jd p q.0) q.1 same in
    let os = dealt_offers now o s.offers in
    let first = dealt_closed now p (accept_row now o) os (λ h. ne (sym h)) mid refl in
    let second =
      dealt_self now (cascade_decline now p) (accept_row now o) os (λ h. ne (sym h)) other in
    let end =
      commit_offers now p (accept_commit now o s).1 no_p
      ∙ ap (dealt_offers now p) (commit_offers now o s no_o) in
    (ap status_of (ap (find o.id) end ∙ first), ap status_of (ap (find p.id) end ∙ second))
