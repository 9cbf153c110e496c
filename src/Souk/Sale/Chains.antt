-- ===== src/Souk/Sale/Chains.antt =====
-- The chains of counter-offers: how each change of the offers keeps them short.
use madinaty_ai_core_mesh.Base.{
  ℕ, zero, suc, ◌+◌, ◌≤◌, ◌≡◌, refl, ap, ◌∙◌, inl, inr, Bool, true, List, [], ◌∷◌, ◌++◌, Option,
  none, some, arith, All, All-mono, All-concat, All-and, Option-cases,
}
use madinaty_ai_core_mesh.Base.Action.{ok}
use madinaty_ai_core_mesh.Base.Table.{
  find, update, update_where, find-append, All-update, All-update_where, All-find,
}
use madinaty_ai_core_mesh.Souk.{Offer, offer_keyed}
use madinaty_ai_core_mesh.Souk.Gates.{depth_from, check_depth, parent_of, max_counter_depth}
use madinaty_ai_core_mesh.Souk.Sale.Settled.{Settled, HasSettledParent, parent_settled}

-- How many offers the walk of `assertCounterDepthAllowed` finds above an offer.
abbrev pub IsShort : List Offer → Offer → Type 0
IsShort os o = depth_from (max_counter_depth + 2) os o.parent_offer_id ≤ max_counter_depth

abbrev pub Short : List Offer → Type 0
Short os = All (IsShort os) os

pub record KeepsLinks (f : Offer → Offer) : Type 0 where
  pub same_id : (o : Offer) → (f o).id ≡ o.id
  pub same_parent : (o : Offer) → (f o).parent_offer_id ≡ o.parent_offer_id

module _ (f : Offer → Offer) (k : KeepsLinks f) where
  pub parent-update :
      (id j : ℕ) (os : List Offer) → parent_of (find j (update id f os)) ≡ parent_of (find j os)
  unfolding find update
  parent-update id j [] = refl
  parent-update id j (o ∷ os) = ground (arith, k.same_id o, k.same_parent o, parent-update id j os)

  parent-update_where :
      (p : Offer → Bool) (j : ℕ) (os : List Offer)
      → parent_of (find j (update_where p f os)) ≡ parent_of (find j os)
  unfolding find update_where
  parent-update_where p j [] = refl
  parent-update_where p j (o ∷ os) =
      ground (arith, k.same_id o, k.same_parent o, parent-update_where p j os)

-- Tables in which every id has the same parent have the same chains.
depth-same :
    (os ps : List Offer)
    → ((j : ℕ) → parent_of (find j os) ≡ parent_of (find j ps))
    → (n : ℕ) (c : Option ℕ) → depth_from n os c ≡ depth_from n ps c
unfolding depth_from
depth-same os ps h zero c = refl
depth-same os ps h (suc n) none = refl
depth-same os ps h (suc n) (some j) =
    ap suc (ap (depth_from n os) (h j) ∙ depth-same os ps h n (parent_of (find j ps)))

-- A row at the end adds nothing to a chain whose links are all there.
depth-append :
    (os : List Offer) (x : Offer)
    → Settled os
    → (n : ℕ) (c : Option ℕ) → parent_settled os c ≡ true
    → depth_from n (os ++ x ∷ []) c ≡ depth_from n os c
unfolding depth_from
depth-append os x v zero c h = refl
depth-append os x v (suc n) none h = refl
depth-append os x v (suc n) (some j) h = elim (Option-cases (find j os)) [
  | inl e ↦ ground arith
  | inr (o, e) ↦
      rw (e, find-append j os (x ∷ []) o e)
        (ap suc
          (depth-append os x v n o.parent_offer_id (All-find (HasSettledParent os) j os o v e)))
]

module _ (f : Offer → Offer) (k : KeepsLinks f) where
  pub update-Short : (id : ℕ) (os : List Offer) → Short os → Short (update id f os)
  update-Short id os v =
      All-update (IsShort (update id f os)) id f os (λ o _ h. rw (k.same_parent o) h)
        (All-mono (IsShort os) (IsShort (update id f os)) os
          (λ o h.
            rw (depth-same (update id f os) os (λ j. parent-update f k id j os) 4 o.parent_offer_id)
              h)
          v)

  pub update_where-Short :
      (p : Offer → Bool) (os : List Offer) → Short os → Short (update_where p f os)
  update_where-Short p os v =
      All-update_where (IsShort (update_where p f os)) (IsShort (update_where p f os)) p f os
        (λ o _ h. rw (k.same_parent o) h) (λ o _ h. h)
        (All-mono (IsShort os) (IsShort (update_where p f os)) os
          (λ o h.
            rw
              (depth-same (update_where p f os) os (λ j. parent-update_where f k p j os) 4
                o.parent_offer_id)
              h)
          v)

pub append-Short :
    (os : List Offer) (x : Offer)
    → Settled os
    → HasSettledParent os x
    → IsShort os x
    → Short os
    → Short (os ++ x ∷ [])
append-Short os x sv hx sx v =
    All-concat (IsShort (os ++ x ∷ [])) os
      (All-mono (λ o. HasSettledParent os o × IsShort os o) (IsShort (os ++ x ∷ [])) os
        (λ o (p, h). rw (depth-append os x sv 4 o.parent_offer_id p) h)
        (All-and (HasSettledParent os) (IsShort os) os sv v))
      (rw (depth-append os x sv 4 x.parent_offer_id hx) sx)

depth-suc : (os : List Offer) (n : ℕ) (c : Option ℕ) → depth_from n os c ≤ depth_from (suc n) os c
unfolding depth_from
depth-suc os zero c = omega arith
depth-suc os (suc n) none = omega arith
depth-suc os (suc n) (some j) = omega (arith, depth-suc os n (parent_of (find j os)))

-- What the depth check lets through makes a short chain.
pub counter-IsShort :
    (os ps : List Offer) (o : Offer)
    → find o.id os ≡ some o
    → ((j : ℕ) → parent_of (find j ps) ≡ parent_of (find j os))
    → check_depth os o.parent_offer_id ≡ ok tt
    → depth_from 4 ps (some o.id) ≤ 2
unfolding check_depth depth_from
counter-IsShort os ps o e h ch =
    ground (arith, h o.id, depth-same ps os h 3 o.parent_offer_id, depth-suc os 3 o.parent_offer_id)
