-- ===== src/Souk/Sale/Deals.antt =====
-- The invariant through the two accepts and the two counters.
use madinaty_ai_core_mesh.Base.{
  ℕ, ◌≤◌, ◌≡◌, refl, sym, ap, subst, true, false, List, [], ◌∷◌, ◌++◌, none, some, arith, All,
  All-mono, inl, inr, Option-cases,
}
use madinaty_ai_core_mesh.Base.Table.{
  find, update, update_where, find-key, All-find, All-unique, find-update_self, find-update-none,
}
use madinaty_ai_core_mesh.Souk.{
  Listing, Offer, offer_keyed, listing_keyed, is_active, is_pending, is_open,
}
use madinaty_ai_core_mesh.Souk.Offers.{
  is_duplicate, new_offer, is_sibling, cascade_decline, accept_row, reserve_row, counter_row,
}
use madinaty_ai_core_mesh.Souk.Sale.Answered.{IsExcused}
use madinaty_ai_core_mesh.Souk.Sale.Settled.{HasSettledParent, is_settled}
use madinaty_ai_core_mesh.Souk.Gates.{check_depth}
use madinaty_ai_core_mesh.Base.Action.{ok}
use madinaty_ai_core_mesh.Souk.Sale.Sound.{append-IsSound}
use madinaty_ai_core_mesh.Souk.Sale.Chains.{counter-IsShort, parent-update}
use madinaty_ai_core_mesh.Souk.Sale.Safety.{
  Ends-Closes, IsSafe, update-IsSafe, append-IsSafe, deal-IsSafe,
}

-- The row of an id, by the id that the row carries.
pub found_by_own :
    (os : List Offer) (id : ℕ) (o : Offer) → find id os ≡ some o → find o.id os ≡ some o
found_by_own os id o e = subst (λ j. find j os ≡ some o) (sym (find-key id os o e)) e

module _ (ls : List Listing) (os : List Offer) (v : IsSafe ls os) (now id : ℕ) (o : Offer)
    (l : Listing) (e : find id os ≡ some o) (f : find o.listing_id ls ≡ some l)
    (ac : is_active l.status ≡ true) where
  pub accept-IsSafe :
      is_open o.status ≡ true
      → IsSafe (update o.listing_id reserve_row ls) (
          update o.id
            (accept_row now)
            (update_where (is_sibling o.listing_id (o.id ∷ [])) (cascade_decline now) os))
  unfolding is_sibling
  accept-IsSafe op =
      deal-IsSafe ls os v now (o.id ∷ []) o l (found_by_own os id o e) f op ac (ground arith) (
        All-mono (HasSettledParent os) (IsExcused (o.id ∷ []) o.id) os
          (λ r _ named ne. ground arith) v.sound.settled)

  IsExcused-pair :
      (parent : ℕ) → o.parent_offer_id ≡ some parent → All (IsExcused (o.id ∷ parent ∷ []) o.id) os
  IsExcused-pair parent p = elim (Option-cases (find parent os)) [
    | inl gone ↦ ground (arith, All-find (HasSettledParent os) id os o v.sound.settled e)
    | inr (q, there) ↦
        All-mono (λ r. r.id ≡ parent → is_pending r.status ≡ false)
          (IsExcused (o.id ∷ parent ∷ []) o.id) os (λ r h named ne. ground (arith, h))
          (All-unique (λ r. is_pending r.status ≡ false) parent os q there
            (ground (arith, All-find (HasSettledParent os) id os o v.sound.settled e))
            v.sound.distinct)
  ]

  pub accept_counter-IsSafe :
      (parent : ℕ)
      → o.parent_offer_id ≡ some parent
      → is_pending o.status ≡ true
      → IsSafe (update o.listing_id reserve_row ls) (
          update o.id
            (accept_row now)
            (update_where (is_sibling o.listing_id (o.id ∷ parent ∷ [])) (cascade_decline now) os))
  unfolding is_sibling
  accept_counter-IsSafe parent p pe =
      deal-IsSafe ls os v now (o.id ∷ parent ∷ []) o l (found_by_own os id o e) f (ground arith) ac
        (ground arith) (IsExcused-pair parent p)

  pub counter-IsSafe :
      (fresh amount : ℕ)
      → find fresh os ≡ none
      → 1 ≤ amount
      → check_depth os o.parent_offer_id ≡ ok tt
      → IsSafe ls (
          update o.id (counter_row now) os
          ++ new_offer fresh now o.listing_id o.buyer_id o.seller_id amount none none (some o.id)
            ∷ [])
  unfolding new_offer is_duplicate
  counter-IsSafe fresh amount free paid short =
      let own = found_by_own os id o e in
      let ends = Ends-Closes (counter_row now) (λ _. (refl, refl, refl, refl, refl, refl)) in
      let rest = update o.id (counter_row now) os in
      let closed =
        update-IsSafe ls os v (counter_row now) o.id o own ends (λ listing. ground arith) in
      let counter =
        new_offer fresh now o.listing_id o.buyer_id o.seller_id amount none none (some o.id) in
      append-IsSafe ls rest closed counter
        (append-IsSound rest counter
          (find-update-none o.id fresh (counter_row now) os (λ _. refl) free)
          (ap is_settled (find-update_self o.id (counter_row now) os o (λ _. refl) own))
          (counter-IsShort os rest o own
            (λ j.
              parent-update (counter_row now)
                (record { same_id = λ _. refl; same_parent = λ _. refl }) o.id j os)
            short)
          paid (λ listing buyer. ground (arith, closed.sound.one_root listing buyer)) closed.sound)
        refl (ground arith)
