-- ===== src/Souk/Cases.antt =====
-- What each handler that writes offers or listings leaves in those two tables.
use madinaty_ai_core_mesh.Base.{
  ℕ, ◌≤◌, ◌≡◌, or_else, find_first, true, List, [], ◌∷◌, ◌++◌, Option, none, some, arith,
  Option-cases, inl, inr,
}
use madinaty_ai_core_mesh.Base.Text.{Text}
use madinaty_ai_core_mesh.Base.Action.{ok}
use madinaty_ai_core_mesh.Base.Table.{find, update, update_where}
use madinaty_ai_core_mesh.Souk.{
  Souk, Listing, Offer, Env, offer_keyed, listing_keyed, declined_by_buyer, is_active, is_open,
  is_pending, is_agreed,
}
use madinaty_ai_core_mesh.Souk.Gates.{check_depth, check_amount}
use madinaty_ai_core_mesh.Souk.Offers.{
  create_offer, new_offer, is_duplicate, accept_offer, settle_deal, is_sibling, cascade_decline,
  accept_row, reserve_row, decline_offer, decline_row, counter_offer, put_counter, counter_row,
  withdraw_offer, withdraw_row, update_offer, edit_row, reason_or,
}
use madinaty_ai_core_mesh.Souk.Counters.{
  buyer_accept_counter, buyer_decline_counter, buyer_counter_offer,
}
use madinaty_ai_core_mesh.Souk.Handovers.{
  cancel_offer, cancel_row, reopen_row, confirm_handover, confirm_with, finalize_handover,
  release_hold, status_row, confirmed_row, sold_row,
}
use madinaty_ai_core_mesh.Souk.Listings.{
  ListingInput, ListingEdit, create_listing, new_listing, get_listing, viewed_row, update_listing,
  edited_row, delete_listing, is_open_on, expire_row, remove_row,
}

-- The two tables of a result.
abbrev pub Tables : (List Listing → List Offer → Type 0) → Souk → Type 0
Tables P s = P s.listings s.offers

-- A handler that reads an offer and its listing: by what it finds.
pub with_rows :
    {B : Type 0} (s : Souk) (id : ℕ)
    → (find id s.offers ≡ none → B)
    → ((o : Offer) → find id s.offers ≡ some o → find o.listing_id s.listings ≡ none → B)
    → ((o : Offer) (l : Listing)
        → find id s.offers ≡ some o
        → find o.listing_id s.listings ≡ some l
        → B)
    → B
with_rows s id missing dangling found = elim (Option-cases (find id s.offers)) [
  | inl e ↦ missing e
  | inr (o, e) ↦ elim (Option-cases (find o.listing_id s.listings)) [
    | inl f ↦ dangling o e f
    | inr (l, f) ↦ found o l e f
  ]
]

module _ (P : List Listing → List Offer → Type 0) (s : Souk) (same : Tables P s) where
  pub create_offer_cases :
      (fresh now buyer listing amount : ℕ) (remark : Option Text) (hold : Option ℕ)
      → ((l : Listing)
          → find listing s.listings ≡ some l
          → is_active l.status ≡ true
          → check_amount amount l.asking_price ≡ ok tt
          → find_first (is_duplicate listing buyer) s.offers ≡ none
          → P s.listings (
              s.offers
              ++ new_offer fresh now listing buyer l.seller_id amount remark hold none ∷ []))
      → Tables P (create_offer fresh now buyer listing amount remark hold s).1
  unfolding create_offer
  create_offer_cases fresh now buyer listing amount remark hold made =
      elim (Option-cases (find listing s.listings)) [
        | inl e ↦ ground arith
        | inr (l, e) ↦ ground (arith, made l e)
      ]

  module _ (now id : ℕ) where
    abbrev Deal : (List ℕ) → Offer → Type 0
    Deal excluded o = P (update o.listing_id reserve_row s.listings) (
        update o.id (accept_row now)
          (update_where (is_sibling o.listing_id excluded) (cascade_decline now) s.offers))

    pub accept_offer_cases :
        (env : Env) (seller : ℕ)
        → ((o : Offer) (l : Listing)
            → find id s.offers ≡ some o
            → find o.listing_id s.listings ≡ some l
            → is_open o.status ≡ true
            → is_active l.status ≡ true
            → Deal (o.id ∷ []) o)
        → Tables P (accept_offer env now id seller s).1
    unfolding accept_offer settle_deal
    accept_offer_cases env seller made =
        with_rows s id (λ e. ground arith) (λ o e f. ground arith)
          (λ o l e f. ground (arith, made o l e f))

    pub buyer_accept_counter_cases :
        (env : Env) (buyer : ℕ)
        → ((o : Offer) (l : Listing) (parent : ℕ)
            → find id s.offers ≡ some o
            → find o.listing_id s.listings ≡ some l
            → o.parent_offer_id ≡ some parent
            → is_pending o.status ≡ true
            → is_active l.status ≡ true
            → Deal (o.id ∷ parent ∷ []) o)
        → Tables P (buyer_accept_counter env now id buyer s).1
    unfolding buyer_accept_counter settle_deal
    buyer_accept_counter_cases env buyer made =
        with_rows s id (λ e. ground arith) (λ o e f. ground arith)
          (λ o l e f. elim (Option-cases o.parent_offer_id) [
            | inl g ↦ ground arith
            | inr (parent, g) ↦ ground (arith, made o l parent e f g)
          ])

    -- The three ways in which an open offer is closed without a deal.
    pub decline_offer_cases :
        (seller : ℕ) (reason : Option Text)
        → ((o : Offer)
            → find id s.offers ≡ some o
            → P s.listings
                (update id (λ r. decline_row now (reason_or r.decline_reason reason) r) s.offers))
        → Tables P (decline_offer now id seller reason s).1
    unfolding decline_offer
    decline_offer_cases seller reason made =
        with_rows s id (λ e. ground arith) (λ o e f. ground arith)
          (λ o l e f. ground (arith, made o e))

    pub buyer_decline_counter_cases :
        (buyer : ℕ) (reason : Option Text)
        → ((o : Offer)
            → find id s.offers ≡ some o
            → P s.listings
                (update id (decline_row now (reason_or (some declined_by_buyer) reason)) s.offers))
        → Tables P (buyer_decline_counter now id buyer reason s).1
    unfolding buyer_decline_counter
    buyer_decline_counter_cases buyer reason made =
        with_rows s id (λ e. ground arith) (λ o e f. ground arith)
          (λ o l e f. ground (arith, made o e))

    pub withdraw_offer_cases :
        (buyer : ℕ)
        → ((o : Offer)
            → find id s.offers ≡ some o
            → P s.listings (update id (withdraw_row now) s.offers))
        → Tables P (withdraw_offer now id buyer s).1
    unfolding withdraw_offer
    withdraw_offer_cases buyer made =
        with_rows s id (λ e. ground arith) (λ o e f. ground arith)
          (λ o l e f. ground (arith, made o e))

    pub update_offer_cases :
        (buyer : ℕ) (amount : Option ℕ) (remark : Option Text)
        → ((o : Offer)
            → find id s.offers ≡ some o
            → 1 ≤ or_else amount 1
            → P s.listings (update id (edit_row now amount remark) s.offers))
        → Tables P (update_offer now id buyer amount remark s).1
    unfolding update_offer check_amount
    update_offer_cases buyer amount remark made =
        with_rows s id (λ e. ground arith) (λ o e f. ground arith)
          (λ o l e f. ground (arith, made o e))

    abbrev Counter : ℕ → ℕ → Offer → Type 0
    Counter fresh amount o = P s.listings (
        update o.id (counter_row now) s.offers
        ++ new_offer fresh now o.listing_id o.buyer_id o.seller_id amount none none (some o.id)
          ∷ [])

    abbrev MakesCounter : ℕ → ℕ → Type 0
    MakesCounter fresh amount =
        (o : Offer) (l : Listing)
        → find id s.offers ≡ some o
        → find o.listing_id s.listings ≡ some l
        → is_active l.status ≡ true
        → check_amount amount l.asking_price ≡ ok tt
        → check_depth s.offers o.parent_offer_id ≡ ok tt
        → Counter fresh amount o

    pub counter_offer_cases :
        (fresh seller amount : ℕ)
        → MakesCounter fresh amount
        → Tables P (counter_offer fresh now id seller amount s).1
    unfolding counter_offer put_counter
    counter_offer_cases fresh seller amount made =
        with_rows s id (λ e. ground arith) (λ o e f. ground arith)
          (λ o l e f. ground (arith, made o l e f))

    pub buyer_counter_offer_cases :
        (fresh buyer amount : ℕ)
        → MakesCounter fresh amount
        → Tables P (buyer_counter_offer fresh now id buyer amount s).1
    unfolding buyer_counter_offer put_counter
    buyer_counter_offer_cases fresh buyer amount made =
        with_rows s id (λ e. ground arith) (λ o e f. ground arith)
          (λ o l e f. ground (arith, made o l e f))

    pub cancel_offer_cases :
        (fresh caller : ℕ) (reason : Text)
        → ((o : Offer) (l : Listing)
            → find id s.offers ≡ some o
            → find o.listing_id s.listings ≡ some l
            → is_agreed o.status ≡ true
            → P
                (update o.listing_id reopen_row s.listings)
                (update id (cancel_row now reason) s.offers))
        → Tables P (cancel_offer fresh now id caller reason s).1
    unfolding cancel_offer release_hold
    cancel_offer_cases fresh caller reason made =
        with_rows s id (λ e. ground arith) (λ o e f. ground arith)
          (λ o l e f. ground (arith, made o l e f))

    pub confirm_handover_cases :
        (fresh user : ℕ)
        → ((o : Offer)
            → find id s.offers ≡ some o
            → is_agreed o.status ≡ true
            → P s.listings (update o.id (status_row now) s.offers))
        → ((o : Offer)
            → find id s.offers ≡ some o
            → is_agreed o.status ≡ true
            → P
                (update o.listing_id sold_row s.listings)
                (update o.id (confirmed_row now) s.offers))
        → Tables P (confirm_handover fresh now id user s).1
    unfolding confirm_handover confirm_with finalize_handover release_hold
    confirm_handover_cases fresh user first both = elim (Option-cases (find id s.offers)) [
      | inl e ↦ ground arith
      | inr (o, e) ↦ ground (arith, first o e, both o e)
    ]

    pub delete_listing_cases :
        (seller : ℕ)
        → ((l : Listing)
            → find id s.listings ≡ some l
            → P
                (update id (remove_row now) s.listings)
                (update_where (is_open_on id) (expire_row now) s.offers))
        → Tables P (delete_listing now id seller s).1
    unfolding delete_listing
    delete_listing_cases seller made = elim (Option-cases (find id s.listings)) [
      | inl e ↦ ground arith
      | inr (l, e) ↦ ground (arith, made l e)
    ]

  pub create_listing_cases :
      (env : Env) (fresh now seller : ℕ) (dto : ListingInput)
      → P (s.listings ++ new_listing env fresh now seller dto ∷ []) s.offers
      → Tables P (create_listing env fresh now seller dto s).1
  unfolding create_listing
  create_listing_cases env fresh now seller dto made = ground arith

  pub get_listing_cases :
      (id : ℕ) → P (update id viewed_row s.listings) s.offers → Tables P (get_listing id s).1
  unfolding get_listing
  get_listing_cases id made = ground arith

  pub update_listing_cases :
      (id seller : ℕ) (dto : ListingEdit)
      → P (update id (edited_row dto) s.listings) s.offers
      → Tables P (update_listing id seller dto s).1
  unfolding update_listing
  update_listing_cases id seller dto made = ground arith
