-- ===== src/Souk/Sale/Answered.antt =====
-- Every pending offer is on an active listing: how each change of the two tables keeps this.
use madinaty_ai_core_mesh.Base.{
  ℕ, ◌≡◌, ◌≢◌, refl, subst, inl, inr, Bool, true, false, List, [], ◌∷◌, ◌++◌, Option, none, some,
  arith, ◌==◌, any, Bool-cases, All, All-mono, All-and, All-concat,
}
use madinaty_ai_core_mesh.Base.Table.{
  find, update, update_where, KeepsKey, Distinct, find-update_ne, count-pos_of_find, All-update,
  All-update_where, All-update_rest, update_where-Distinct, find-update_where_out,
}
use madinaty_ai_core_mesh.Souk.{
  Listing, Offer, listing_keyed, offer_keyed, is_active, is_agreed, is_pending,
}
use madinaty_ai_core_mesh.Souk.Offers.{is_sibling, cascade_decline, accept_row, reserve_row}
use madinaty_ai_core_mesh.Souk.Handovers.{sold_row, confirmed_row}
use madinaty_ai_core_mesh.Souk.Listings.{is_open_on, expire_row, remove_row}
use madinaty_ai_core_mesh.Souk.Sale.Single.{Single, is_live_on}

abbrev pub active_at : Option Listing → Bool
active_at none = false
active_at (some l) = is_active l.status

abbrev pub IsAnswered : List Listing → Offer → Type 0
IsAnswered ls o = is_pending o.status ≡ true → active_at (find o.listing_id ls) ≡ true

abbrev pub Answered : List Listing → List Offer → Type 0
Answered ls os = All (IsAnswered ls) os

-- A change of a row that keeps its listing and does not make it pending.
pub record KeepsAnswered (f : Offer → Offer) : Type 0 where
  pub same_listing : (o : Offer) → (f o).listing_id ≡ o.listing_id
  pub was_pending : (o : Offer) → is_pending (f o).status ≡ true → is_pending o.status ≡ true

pub update-Answered :
    (ls : List Listing) (f : Offer → Offer) (id : ℕ) (os : List Offer)
    → KeepsAnswered f
    → Answered ls os
    → Answered ls (update id f os)
update-Answered ls f id os k =
    All-update (IsAnswered ls) id f os (λ o _ h p. rw (k.same_listing o) (h (k.was_pending o p)))

pub append-Answered :
    (ls : List Listing) (os : List Offer) (o : Offer)
    → active_at (find o.listing_id ls) ≡ true
    → Answered ls os
    → Answered ls (os ++ o ∷ [])
append-Answered ls os o h v = All-concat (IsAnswered ls) os v (λ _. h)

-- A change of the listings under which active ones stay active.
pub listings-Answered :
    (ls ms : List Listing) (os : List Offer)
    → ((j : ℕ) → active_at (find j ls) ≡ true → active_at (find j ms) ≡ true)
    → Answered ls os
    → Answered ms os
listings-Answered ls ms os keep =
    All-mono (IsAnswered ls) (IsAnswered ms) os (λ o h p. keep o.listing_id (h p))

pub active-append :
    (ls : List Listing) (x : Listing) (j : ℕ)
    → active_at (find j ls) ≡ true
    → active_at (find j (ls ++ x ∷ [])) ≡ true
unfolding find
active-append [] x j h = cc
active-append (l ∷ ls) x j h = ground (arith, active-append ls x j)

pub active-update :
    (ls : List Listing) (f : Listing → Listing) (id j : ℕ)
    → ((l : Listing)
        → ((f l).id ≡ l.id) × (is_active l.status ≡ true → is_active (f l).status ≡ true))
    → active_at (find j ls) ≡ true
    → active_at (find j (update id f ls)) ≡ true
unfolding find update
active-update [] f id j k h = cc
active-update (l ∷ ls) f id j k h = ground (arith, (k l).0, (k l).1, active-update ls f id j k)

-- Away from the listing that changes.
active-update_ne :
    (ls : List Listing) (f : Listing → Listing) (id j : ℕ)
    → KeepsKey f
    → j ≢ id
    → active_at (find j ls) ≡ true
    → active_at (find j (update id f ls)) ≡ true
active-update_ne ls f id j kf ne h = rw (find-update_ne id j f ls kf ne) h

-- What is asked of an offer when its listing leaves the market.
abbrev Elsewhere : List Listing → ℕ → Offer → Type 0
Elsewhere ls listing o =
    is_pending o.status ≡ true
    → (o.listing_id ≢ listing) × (active_at (find o.listing_id ls) ≡ true)

Elsewhere-IsAnswered :
    (ls : List Listing) (f : Listing → Listing) (listing : ℕ) (o : Offer)
    → KeepsKey f
    → Elsewhere ls listing o
    → IsAnswered (update listing f ls) o
Elsewhere-IsAnswered ls f listing o kf h p =
    active-update_ne ls f listing o.listing_id kf (h p).0 (h p).1

-- An offer that the cascade passes over, other than the accepted one, is not pending.
abbrev pub IsExcused : List ℕ → ℕ → Offer → Type 0
IsExcused excluded id r =
    any (λ i. i == r.id) excluded ≡ true → r.id ≢ id → is_pending r.status ≡ false

left-Elsewhere :
    (ls : List Listing) (excluded : List ℕ) (o r : Offer)
    → is_sibling o.listing_id excluded r ≡ false
    → IsAnswered ls r × IsExcused excluded o.id r
    → r.id ≢ o.id
    → Elsewhere ls o.listing_id r
unfolding is_sibling
left-Elsewhere ls excluded o r out (answered, excused) ne p =
    elim (Bool-cases (any (λ i. i == r.id) excluded)) [
      | inl named ↦ ground (arith, excused named ne)
      | inr other ↦ (ground arith, answered p)
    ]

-- A listing that an offer holds is not active.
inactive_held :
    (ls : List Listing) (o : Offer) (os : List Offer)
    → Single ls os
    → find o.id os ≡ some o
    → is_agreed o.status ≡ true
    → active_at (find o.listing_id ls) ≢ true
inactive_held ls o os single e ag h = ground (
  arith,
  single o.listing_id,
  count-pos_of_find (is_live_on o.listing_id) o.id os o e (ground arith),
)

module _ (ls : List Listing) (os : List Offer) (d : Distinct os) (v : Answered ls os) where
  -- The deal, where no excluded offer but the accepted one is pending.
  pub deal-Answered :
      (now : ℕ) (excluded : List ℕ) (o : Offer)
      → find o.id os ≡ some o
      → is_sibling o.listing_id excluded o ≡ false
      → All (IsExcused excluded o.id) os
      → Answered (update o.listing_id reserve_row ls) (
          update o.id
            (accept_row now)
            (update_where (is_sibling o.listing_id excluded) (cascade_decline now) os))
  deal-Answered now excluded o e out others =
      let p = is_sibling o.listing_id excluded in
      All-update_rest (λ r. r.id ≢ o.id → Elsewhere ls o.listing_id r)
        (IsAnswered (update o.listing_id reserve_row ls)) o.id (accept_row now)
        (update_where p (cascade_decline now) os) o
        (find-update_where_out o.id p (cascade_decline now) os o (λ _. refl) e out)
        (λ h. ground arith)
        (λ r ne h. Elsewhere-IsAnswered ls reserve_row o.listing_id r (λ _. refl) (h ne))
        (update_where-Distinct p (cascade_decline now) os (λ _. refl) d)
        (All-update_where (λ r. IsAnswered ls r × IsExcused excluded o.id r)
          (λ r. r.id ≢ o.id → Elsewhere ls o.listing_id r) p (cascade_decline now) os
          (λ r _ _ _ h. ground arith) (λ r h a ne. left-Elsewhere ls excluded o r h a ne)
          (All-and (IsAnswered ls) (IsExcused excluded o.id) os v others))

  pub confirm-Answered :
      (now : ℕ) (o : Offer)
      → Single ls os
      → find o.id os ≡ some o
      → is_agreed o.status ≡ true
      → Answered (update o.listing_id sold_row ls) (update o.id (confirmed_row now) os)
  confirm-Answered now o single e ag =
      update-Answered (update o.listing_id sold_row ls) (confirmed_row now) o.id os
        (record { same_listing = λ _. refl; was_pending = λ _ h. ground arith })
        (All-mono (IsAnswered ls) (IsAnswered (update o.listing_id sold_row ls)) os
          (λ r h p.
            active-update_ne ls sold_row o.listing_id r.listing_id (λ _. refl)
              (λ eq.
                inactive_held ls o os single e ag
                  (subst (λ j. active_at (find j ls) ≡ true) eq (h p)))
              (h p))
          v)

  pub delete-Answered :
      (now id : ℕ)
      → Answered (update id (remove_row now) ls) (update_where (is_open_on id) (expire_row now) os)
  unfolding is_open_on
  delete-Answered now id =
      All-update_where (IsAnswered ls) (IsAnswered (update id (remove_row now) ls)) (is_open_on id)
        (expire_row now) os (λ r h _ p. ground arith)
        (λ r h a p.
          active-update_ne ls (remove_row now) id r.listing_id (λ l. refl) (ground arith) (a p))
        v
