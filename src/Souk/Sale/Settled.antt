-- ===== src/Souk/Sale/Settled.antt =====
-- The parent of every counter-offer is there and is no longer pending: how each change of the
-- offers keeps this.
use madinaty_ai_core_mesh.Base.{
  ℕ, ◌≡◌, refl, inl, inr, Bool, true, false, not, List, [], ◌∷◌, ◌++◌, Option, none, some, arith,
  All, All-mono, All-concat, Option-cases,
}
use madinaty_ai_core_mesh.Base.Table.{
  find, update, update_where, find-append, All-update, All-update_where,
}
use madinaty_ai_core_mesh.Souk.{Offer, offer_keyed, is_pending}

-- The row is there, and its round is over.
abbrev pub is_settled : Option Offer → Bool
is_settled none = false
is_settled (some o) = not (is_pending o.status)

abbrev pub parent_settled : List Offer → Option ℕ → Bool
parent_settled os none = true
parent_settled os (some parent) = is_settled (find parent os)

abbrev pub HasSettledParent : List Offer → Offer → Type 0
HasSettledParent os o = parent_settled os o.parent_offer_id ≡ true

abbrev pub Settled : List Offer → Type 0
Settled os = All (HasSettledParent os) os

-- A change of a row that keeps its key and parent, and does not make it pending again.
pub record KeepsSettled (f : Offer → Offer) : Type 0 where
  pub same_id : (o : Offer) → (f o).id ≡ o.id
  pub same_parent : (o : Offer) → (f o).parent_offer_id ≡ o.parent_offer_id
  pub stays : (o : Offer) → is_pending o.status ≡ false → is_pending (f o).status ≡ false

module _ (f : Offer → Offer) (k : KeepsSettled f) where
  settled-update :
      (id j : ℕ) (os : List Offer)
      → is_settled (find j os) ≡ true
      → is_settled (find j (update id f os)) ≡ true
  unfolding find update
  settled-update id j [] h = cc
  settled-update id j (o ∷ os) h = ground (arith, k.same_id o, k.stays o, settled-update id j os)

  settled-update_where :
      (p : Offer → Bool) (j : ℕ) (os : List Offer)
      → is_settled (find j os) ≡ true
      → is_settled (find j (update_where p f os)) ≡ true
  unfolding find update_where
  settled-update_where p j [] h = cc
  settled-update_where p j (o ∷ os) h =
      ground (arith, k.same_id o, k.stays o, settled-update_where p j os)

  pub update-Settled : (id : ℕ) (os : List Offer) → Settled os → Settled (update id f os)
  update-Settled id os v =
      All-update (HasSettledParent (update id f os)) id f os (λ o _ h. rw (k.same_parent o) h)
        (All-mono (HasSettledParent os) (HasSettledParent (update id f os)) os
          (λ o. parents id o.parent_offer_id) v)
    where
      parents :
          (id : ℕ) (p : Option ℕ)
          → parent_settled os p ≡ true
          → parent_settled (update id f os) p ≡ true
      parents id none h = refl
      parents id (some j) h = settled-update id j os h

  pub update_where-Settled :
      (p : Offer → Bool) (os : List Offer) → Settled os → Settled (update_where p f os)
  update_where-Settled p os v =
      All-update_where (HasSettledParent (update_where p f os))
        (HasSettledParent (update_where p f os)) p f os (λ o _ h. rw (k.same_parent o) h)
        (λ o _ h. h)
        (All-mono (HasSettledParent os) (HasSettledParent (update_where p f os)) os
          (λ o. parents o.parent_offer_id) v)
    where
      parents :
          (q : Option ℕ)
          → parent_settled os q ≡ true
          → parent_settled (update_where p f os) q ≡ true
      parents none h = refl
      parents (some j) h = settled-update_where p j os h

settled-append :
    (os : List Offer) (o : Offer) (p : Option ℕ)
    → parent_settled os p ≡ true
    → parent_settled (os ++ o ∷ []) p ≡ true
settled-append os o none h = refl
settled-append os o (some j) h = elim (Option-cases (find j os)) [
  | inl e ↦ ground arith
  | inr (r, e) ↦ ground (arith, find-append j os (o ∷ []) r e)
]

pub append-Settled :
    (os : List Offer) (o : Offer) → HasSettledParent os o → Settled os → Settled (os ++ o ∷ [])
append-Settled os o h v =
    All-concat (HasSettledParent (os ++ o ∷ [])) os
      (All-mono (HasSettledParent os) (HasSettledParent (os ++ o ∷ [])) os
        (λ r. settled-append os o r.parent_offer_id) v)
      (settled-append os o o.parent_offer_id h)
