-- ===== src/Souk/Sale/Sound.antt =====
-- What holds of the offers by themselves, and the changes of a row that keep it: distinct ids,
-- settled parents, short chains, positive amounts, and one pending first bid for a buyer and a
-- listing.
use madinaty_ai_core_mesh.Base.{
  ℕ, ◌+◌, ◌≤◌, ◌≡◌, refl, Bool, true, List, [], ◌∷◌, ◌++◌, none, arith, All, All-concat, bit, count,
  count-append, find_first,
}
use madinaty_ai_core_mesh.Base.Table.{
  Keyed, find, update, update_where, Distinct, update-Distinct, update_where-Distinct,
  append-Distinct, All-update, All-update_where,
}
use madinaty_ai_core_mesh.Souk.{Offer, offer_keyed, is_pending}
use madinaty_ai_core_mesh.Souk.Offers.{is_duplicate}
use madinaty_ai_core_mesh.Souk.Sale.Settled.{
  Settled, HasSettledParent, KeepsSettled, update-Settled, update_where-Settled, append-Settled,
}
use madinaty_ai_core_mesh.Souk.Sale.Chains.{
  Short, IsShort, KeepsLinks, update-Short, update_where-Short, append-Short,
}

abbrev pub IsPriced : Offer → Type 0
IsPriced o = 1 ≤ o.amount

abbrev pub OneRoot : List Offer → Type 0
OneRoot os = (listing buyer : ℕ) → count (is_duplicate listing buyer) os ≤ 1

pub record IsSound (os : List Offer) : Type 0 where
  pub distinct : Distinct os
  pub settled : Settled os
  pub short : Short os
  pub priced : All IsPriced os
  pub one_root : OneRoot os

-- A change of a row that keeps its ids and a positive amount, and after which it is pending only if
-- it was.
pub record Closes (f : Offer → Offer) : Type 0 where
  pub same_id : (o : Offer) → (f o).id ≡ o.id
  pub same_listing : (o : Offer) → (f o).listing_id ≡ o.listing_id
  pub same_buyer : (o : Offer) → (f o).buyer_id ≡ o.buyer_id
  pub same_parent : (o : Offer) → (f o).parent_offer_id ≡ o.parent_offer_id
  pub was_pending : (o : Offer) → is_pending (f o).status ≡ true → is_pending o.status ≡ true
  pub keeps_priced : (o : Offer) → IsPriced o → IsPriced (f o)

module _ {R : Type 0} ⦃k : Keyed R⦄ (p : R → Bool) (f : R → R)
    (h : (r : R) → bit (p (f r)) ≤ bit (p r)) where
  count-update_le : (i : ℕ) (rs : List R) → count p (update i f rs) ≤ count p rs
  unfolding update
  count-update_le i [] = omega arith
  count-update_le i (r ∷ rs) = ground (arith, h r, count-update_le i rs)

  count-update_where_le : (q : R → Bool) (rs : List R) → count p (update_where q f rs) ≤ count p rs
  unfolding update_where
  count-update_where_le q [] = omega arith
  count-update_where_le q (r ∷ rs) = ground (arith, h r, count-update_where_le q rs)

pub count_of_none {ℓ} :
    {A : Type ℓ} (p : A → Bool) (xs : List A) → find_first p xs ≡ none → count p xs ≡ 0
count_of_none p [] h = refl
count_of_none p (x ∷ xs) h = ground (arith, count_of_none p xs)

module _ (f : Offer → Offer) (k : Closes f) where
  settles : KeepsSettled f
  settles = record {
    same_id = k.same_id;
    same_parent = k.same_parent;
    stays = λ o h. ground (arith, k.was_pending o);
  }

  links : KeepsLinks f
  links = record { same_id = k.same_id; same_parent = k.same_parent }

  duplicate_le :
      (listing buyer : ℕ) (o : Offer)
      → bit (is_duplicate listing buyer (f o)) ≤ bit (is_duplicate listing buyer o)
  unfolding is_duplicate
  duplicate_le listing buyer o =
      rw (k.same_listing o, k.same_buyer o, k.same_parent o) (ground (arith, k.was_pending o))

  pub update-IsSound : (id : ℕ) (os : List Offer) → IsSound os → IsSound (update id f os)
  update-IsSound id os v = record {
    distinct = update-Distinct id f os k.same_id v.distinct;
    settled = update-Settled f settles id os v.settled;
    short = update-Short f links id os v.short;
    priced = All-update IsPriced id f os (λ o _. k.keeps_priced o) v.priced;
    one_root = λ listing buyer. omega (
      arith,
      v.one_root listing buyer,
      count-update_le (is_duplicate listing buyer) f (duplicate_le listing buyer) id os,
    );
  }

  pub update_where-IsSound :
      (p : Offer → Bool) (os : List Offer) → IsSound os → IsSound (update_where p f os)
  update_where-IsSound p os v = record {
    distinct = update_where-Distinct p f os k.same_id v.distinct;
    settled = update_where-Settled f settles p os v.settled;
    short = update_where-Short f links p os v.short;
    priced =
        All-update_where IsPriced IsPriced p f os (λ o _. k.keeps_priced o) (λ o _ h. h) v.priced;
    one_root = λ listing buyer. omega (
      arith,
      v.one_root listing buyer,
      count-update_where_le (is_duplicate listing buyer) f (duplicate_le listing buyer) p os,
    );
  }

pub append-IsSound :
    (os : List Offer) (o : Offer)
    → find o.id os ≡ none
    → HasSettledParent os o
    → IsShort os o
    → IsPriced o
    → ((listing buyer : ℕ)
        → count (is_duplicate listing buyer) os + bit (is_duplicate listing buyer o) ≤ 1)
    → IsSound os
    → IsSound (os ++ o ∷ [])
append-IsSound os o fresh parent short priced root v = record {
  distinct = append-Distinct os o fresh v.distinct;
  settled = append-Settled os o parent v.settled;
  short = append-Short os o v.settled parent short v.short;
  priced = All-concat IsPriced os v.priced priced;
  one_root = λ listing buyer.
      omega (arith, root listing buyer, count-append (is_duplicate listing buyer) os (o ∷ []));
}
