-- ===== src/Souk/Sale/Single.antt =====
-- At most one offer on a listing is accepted, in handover or confirmed, and none while the listing
-- is active: how each change of the two tables keeps this.
use madinaty_ai_core_mesh.Base.{
  ℕ, ◌≤◌, ◌≡◌, ◌≢◌, refl, sym, ap, subst, ==_iff, inl, inr, Bool, true, false, ◌&&◌, List, [], ◌∷◌,
  ◌++◌, Option, none, some, arith, ◌==◌, if◌then◌else◌, bit, count, count-append, Bool-cases,
}
use madinaty_ai_core_mesh.Base.Text.{Text}
use madinaty_ai_core_mesh.Base.Table.{
  find, update, update_where, KeepsKey, find-update_self, find-update_ne, find-update_where_out,
  count-update, count-update_where,
}
use madinaty_ai_core_mesh.Souk.{
  Listing, Offer, listing_keyed, offer_keyed, is_active, is_open, is_live, is_agreed,
}
use madinaty_ai_core_mesh.Souk.Offers.{is_sibling, cascade_decline, accept_row, reserve_row}
use madinaty_ai_core_mesh.Souk.Handovers.{sold_row, confirmed_row, reopen_row, cancel_row}
use madinaty_ai_core_mesh.Souk.Listings.{is_open_on, expire_row, remove_row}

-- An offer that holds the listing for its buyer.
abbrev pub is_live_on : ℕ → Offer → Bool
is_live_on listing o = o.listing_id == listing && is_live o.status

-- How many such offers a listing may have.
abbrev pub capacity : Option Listing → ℕ
capacity none = 0
capacity (some l) = if is_active l.status then 0 else 1

abbrev pub Single : List Listing → List Offer → Type 0
Single ls os = (listing : ℕ) → count (is_live_on listing) os ≤ capacity (find listing ls)

-- A change of a row that makes it live on no further listing.
abbrev pub GainsNone : (Offer → Offer) → Offer → Type 0
GainsNone f r = (listing : ℕ) → bit (is_live_on listing (f r)) ≤ bit (is_live_on listing r)

pub capacity-le : (o : Option Listing) → capacity o ≤ 1
capacity-le none = omega arith
capacity-le (some l) = ground arith

-- What a change of one listing does to its capacity.
module _ (ls : List Listing) (f : Listing → Listing) (kf : KeepsKey f) (id listing : ℕ) where
  capacity-update_ne :
      listing ≢ id → capacity (find listing (update id f ls)) ≡ capacity (find listing ls)
  capacity-update_ne ne = ap capacity (find-update_ne id listing f ls kf ne)

  capacity-update_self :
      (l : Listing)
      → find id ls ≡ some l
      → listing ≡ id
      → capacity (find listing (update id f ls)) ≡ capacity (some (f l))
  capacity-update_self l e eq = rw (eq, find-update_self id f ls l kf e)

-- A change of listings that leaves their status alone.
pub capacity-update_same :
    (ls : List Listing) (f : Listing → Listing) (id listing : ℕ)
    → ((l : Listing) → ((f l).id ≡ l.id) × ((f l).status ≡ l.status))
    → capacity (find listing (update id f ls)) ≡ capacity (find listing ls)
unfolding find update
capacity-update_same [] f id listing h = refl
capacity-update_same (l ∷ ls) f id listing h =
    ground (arith, h l, capacity-update_same ls f id listing h)

-- A change of listings that takes the listing off the market or leaves it as it is.
capacity-update_closed :
    (ls : List Listing) (f : Listing → Listing) (id listing : ℕ)
    → ((l : Listing) → ((f l).id ≡ l.id) × (is_active (f l).status ≡ false))
    → capacity (find listing ls) ≤ capacity (find listing (update id f ls))
unfolding find update
capacity-update_closed [] f id listing h = omega arith
capacity-update_closed (l ∷ ls) f id listing h =
    ground (arith, h l, capacity-update_closed ls f id listing h)

capacity-append :
    (ls : List Listing) (x : Listing) (listing : ℕ)
    → is_active x.status ≡ true
    → capacity (find listing (ls ++ x ∷ [])) ≡ capacity (find listing ls)
unfolding find
capacity-append [] x listing h = ground arith
capacity-append (l ∷ ls) x listing h = ground (arith, capacity-append ls x listing h)

confirmed_bit :
    (now listing : ℕ) (o : Offer)
    → is_agreed o.status ≡ true
    → bit (is_live_on listing (confirmed_row now o)) ≡ bit (is_live_on listing o)
confirmed_bit now listing o h = ground arith

module _ (ls : List Listing) (os : List Offer) (v : Single ls os) where
  pub update-Single :
      (id : ℕ) (f : Offer → Offer) (o : Offer)
      → find id os ≡ some o
      → GainsNone f o
      → Single ls (update id f os)
  update-Single id f o e h listing =
      omega (arith, v listing, h listing, count-update (is_live_on listing) id f os o e)

  pub append-Single : (o : Offer) → is_live o.status ≡ false → Single ls (os ++ o ∷ [])
  append-Single o h listing =
      ground (arith, v listing, count-append (is_live_on listing) os (o ∷ []))

  pub append_listing-Single : (x : Listing) → is_active x.status ≡ true → Single (ls ++ x ∷ []) os
  append_listing-Single x h listing = rw (capacity-append ls x listing h) (v listing)

  pub update_listing-Single :
      (id : ℕ) (f : Listing → Listing)
      → ((l : Listing) → ((f l).id ≡ l.id) × ((f l).status ≡ l.status))
      → Single (update id f ls) os
  update_listing-Single id f h listing = rw (capacity-update_same ls f id listing h) (v listing)

  -- The deal: the siblings are declined, the offer is accepted and its active listing reserved.
  pub deal-Single :
      (now : ℕ) (excluded : List ℕ) (o : Offer) (l : Listing)
      → find o.id os ≡ some o
      → find o.listing_id ls ≡ some l
      → is_open o.status ≡ true
      → is_active l.status ≡ true
      → is_sibling o.listing_id excluded o ≡ false
      → Single (update o.listing_id reserve_row ls) (
          update o.id
            (accept_row now)
            (update_where (is_sibling o.listing_id excluded) (cascade_decline now) os))
  unfolding is_sibling
  deal-Single now excluded o l e f op ac out listing =
      let rest = update_where (is_sibling o.listing_id excluded) (cascade_decline now) os in
      let kept =
        count-update_where (is_live_on listing) (is_sibling o.listing_id excluded)
          (cascade_decline now) os (λ r h. ground arith) in
      let here =
        find-update_where_out o.id (is_sibling o.listing_id excluded) (cascade_decline now) os o
          (λ r. refl) e out in
      let taken = count-update (is_live_on listing) o.id (accept_row now) rest o here in
      elim (Bool-cases (listing == o.listing_id)) [
        | inl same ↦
            let eq = (==_iff listing o.listing_id).0 same in
            ground (
              arith,
              kept,
              taken,
              v listing,
              subst (λ j. find j ls ≡ some l) (sym eq) f,
              capacity-update_self ls reserve_row (λ r. refl) o.listing_id listing l f eq,
            )
        | inr apart ↦ ground (
          arith,
          kept,
          taken,
          v listing,
          capacity-update_ne ls reserve_row (λ r. refl) o.listing_id listing,
        )
      ]

  pub confirm-Single :
      (now : ℕ) (o : Offer)
      → find o.id os ≡ some o
      → is_agreed o.status ≡ true
      → Single (update o.listing_id sold_row ls) (update o.id (confirmed_row now) os)
  confirm-Single now o e ag listing = omega (
    arith,
    v listing,
    count-update (is_live_on listing) o.id (confirmed_row now) os o e,
    capacity-update_closed ls sold_row o.listing_id listing (λ l. (refl, refl)),
    confirmed_bit now listing o ag,
  )

  pub cancel-Single :
      (now : ℕ) (reason : Text) (o : Offer) (l : Listing)
      → find o.id os ≡ some o
      → find o.listing_id ls ≡ some l
      → is_agreed o.status ≡ true
      → Single (update o.listing_id reopen_row ls) (update o.id (cancel_row now reason) os)
  cancel-Single now reason o l e f ag listing =
      let freed = count-update (is_live_on listing) o.id (cancel_row now reason) os o e in
      elim (Bool-cases (listing == o.listing_id)) [
        | inl same ↦ ground (
          arith,
          freed,
          v listing,
          capacity-le (find listing ls),
          capacity-update_self ls reopen_row (λ r. refl) o.listing_id listing l f,
        )
        | inr apart ↦ ground (
          arith,
          freed,
          v listing,
          capacity-update_ne ls reopen_row (λ r. refl) o.listing_id listing,
        )
      ]

  pub delete-Single :
      (now id : ℕ)
      → Single (update id (remove_row now) ls) (update_where (is_open_on id) (expire_row now) os)
  unfolding is_open_on
  delete-Single now id listing = omega (
    arith,
    v listing,
    count-update_where (is_live_on listing) (is_open_on id) (expire_row now) os
        (λ r h. ground arith),
    capacity-update_closed ls (remove_row now) id listing (λ l. (refl, refl)),
  )
