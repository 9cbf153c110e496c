-- ===== src/Souk/Sale/Safety.antt =====
-- The invariant of the tables, and the changes of one row that keep it.
use madinaty_ai_core_mesh.Base.{
  ℕ, ◌≡◌, refl, Bool, true, false, List, [], ◌∷◌, ◌++◌, some, arith, All,
}
use madinaty_ai_core_mesh.Base.Text.{Text}
use madinaty_ai_core_mesh.Base.Table.{find, update, update_where}
use madinaty_ai_core_mesh.Souk.{
  Listing, Offer, offer_keyed, listing_keyed, is_active, is_pending, is_open, is_live, is_agreed,
}
use madinaty_ai_core_mesh.Souk.Offers.{is_sibling, cascade_decline, accept_row, reserve_row}
use madinaty_ai_core_mesh.Souk.Handovers.{sold_row, confirmed_row, reopen_row, cancel_row}
use madinaty_ai_core_mesh.Souk.Listings.{is_open_on, expire_row, remove_row}
use madinaty_ai_core_mesh.Souk.Sale.Single.{
  Single, GainsNone, update-Single, append-Single, deal-Single, confirm-Single, cancel-Single,
  delete-Single, append_listing-Single, update_listing-Single,
}
use madinaty_ai_core_mesh.Souk.Sale.Answered.{
  Answered, active_at, KeepsAnswered, update-Answered, append-Answered, listings-Answered,
  active-append, active-update, IsExcused, deal-Answered, confirm-Answered, delete-Answered,
}
use madinaty_ai_core_mesh.Souk.Sale.Sound.{IsSound, Closes, update-IsSound, update_where-IsSound}

pub record IsSafe (ls : List Listing) (os : List Offer) : Type 0 where
  pub sound : IsSound os
  pub single : Single ls os
  pub answered : Answered ls os

Closes-answered : (f : Offer → Offer) → Closes f → KeepsAnswered f
Closes-answered f k = record { same_listing = k.same_listing; was_pending = k.was_pending }

-- A change of the row's status to one that is not pending, with what goes with it.
abbrev pub Ends : (Offer → Offer) → Type 0
Ends f =
    (o : Offer)
    → ((f o).id ≡ o.id)
      × ((f o).listing_id ≡ o.listing_id)
      × ((f o).buyer_id ≡ o.buyer_id)
      × ((f o).parent_offer_id ≡ o.parent_offer_id)
      × ((f o).amount ≡ o.amount)
      × (is_pending (f o).status ≡ false)

pub Ends-Closes : (f : Offer → Offer) → Ends f → Closes f
Ends-Closes f e = record {
  same_id = λ o. (e o).0;
  same_listing = λ o. (e o).1;
  same_buyer = λ o. (e o).2;
  same_parent = λ o. (e o).3;
  was_pending = λ o h. ground (arith, (e o).5);
  keeps_priced = λ o h. ground (arith, (e o).4);
}

module _ (ls : List Listing) (os : List Offer) (v : IsSafe ls os) where
  pub update-IsSafe :
      (f : Offer → Offer) (id : ℕ) (o : Offer)
      → find id os ≡ some o
      → Closes f
      → GainsNone f o
      → IsSafe ls (update id f os)
  update-IsSafe f id o e k g = record {
    sound = update-IsSound f k id os v.sound;
    single = update-Single ls os v.single id f o e g;
    answered = update-Answered ls f id os (Closes-answered f k) v.answered;
  }

  pub append-IsSafe :
      (o : Offer)
      → IsSound (os ++ o ∷ [])
      → is_live o.status ≡ false
      → active_at (find o.listing_id ls) ≡ true
      → IsSafe ls (os ++ o ∷ [])
  append-IsSafe o sound dead ac = record {
    sound = sound;
    single = append-Single ls os v.single o dead;
    answered = append-Answered ls os o ac v.answered;
  }

  -- The deal, where no excluded offer but the accepted one is pending.
  pub deal-IsSafe :
      (now : ℕ) (excluded : List ℕ) (o : Offer) (l : Listing)
      → find o.id os ≡ some o
      → find o.listing_id ls ≡ some l
      → is_open o.status ≡ true
      → is_active l.status ≡ true
      → is_sibling o.listing_id excluded o ≡ false
      → All (IsExcused excluded o.id) os
      → IsSafe (update o.listing_id reserve_row ls) (
          update o.id
            (accept_row now)
            (update_where (is_sibling o.listing_id excluded) (cascade_decline now) os))
  deal-IsSafe now excluded o l e f op ac out excused = record {
    sound =
        update-IsSound (accept_row now)
          (Ends-Closes (accept_row now) (λ _. (refl, refl, refl, refl, refl, refl))) o.id rest
          (update_where-IsSound (cascade_decline now)
            (Ends-Closes (cascade_decline now) (λ _. (refl, refl, refl, refl, refl, refl))) p os
            v.sound);
    single = deal-Single ls os v.single now excluded o l e f op ac out;
    answered = deal-Answered ls os v.sound.distinct v.answered now excluded o e out excused;
  }
    where
      p : Offer → Bool
      p = is_sibling o.listing_id excluded

      rest : List Offer
      rest = update_where p (cascade_decline now) os

  pub confirm-IsSafe :
      (now : ℕ) (o : Offer)
      → find o.id os ≡ some o
      → is_agreed o.status ≡ true
      → IsSafe (update o.listing_id sold_row ls) (update o.id (confirmed_row now) os)
  confirm-IsSafe now o e ag = record {
    sound =
        update-IsSound (confirmed_row now)
          (Ends-Closes (confirmed_row now) (λ _. (refl, refl, refl, refl, refl, refl))) o.id os
          v.sound;
    single = confirm-Single ls os v.single now o e ag;
    answered = confirm-Answered ls os v.sound.distinct v.answered now o v.single e ag;
  }

  pub cancel-IsSafe :
      (now : ℕ) (reason : Text) (o : Offer) (l : Listing)
      → find o.id os ≡ some o
      → find o.listing_id ls ≡ some l
      → is_agreed o.status ≡ true
      → IsSafe (update o.listing_id reopen_row ls) (update o.id (cancel_row now reason) os)
  cancel-IsSafe now reason o l e f ag = record {
    sound =
        update-IsSound (cancel_row now reason)
          (Ends-Closes (cancel_row now reason) (λ _. (refl, refl, refl, refl, refl, refl))) o.id os
          v.sound;
    single = cancel-Single ls os v.single now reason o l e f ag;
    answered =
        listings-Answered ls (update o.listing_id reopen_row ls)
          (update o.id (cancel_row now reason) os)
          (λ j. active-update ls reopen_row o.listing_id j (λ _. (refl, λ _. refl)))
          (update-Answered ls (cancel_row now reason) o.id os
            (record { same_listing = λ _. refl; was_pending = λ _ h. ground arith }) v.answered);
  }

  pub delete-IsSafe :
      (now id : ℕ)
      → IsSafe (update id (remove_row now) ls) (update_where (is_open_on id) (expire_row now) os)
  delete-IsSafe now id = record {
    sound =
        update_where-IsSound (expire_row now)
          (Ends-Closes (expire_row now) (λ _. (refl, refl, refl, refl, refl, refl))) (is_open_on id)
          os v.sound;
    single = delete-Single ls os v.single now id;
    answered = delete-Answered ls os v.sound.distinct v.answered now id;
  }

  pub listing-IsSafe :
      (id : ℕ) (f : Listing → Listing)
      → ((l : Listing) → ((f l).id ≡ l.id) × ((f l).status ≡ l.status))
      → IsSafe (update id f ls) os
  listing-IsSafe id f h = record {
    sound = v.sound;
    single = update_listing-Single ls os v.single id f h;
    answered =
        listings-Answered ls (update id f ls) os
          (λ j. active-update ls f id j (λ l. ((h l).0, λ e. ground (arith, (h l).1)))) v.answered;
  }

  pub append_listing-IsSafe : (x : Listing) → is_active x.status ≡ true → IsSafe (ls ++ x ∷ []) os
  append_listing-IsSafe x h = record {
    sound = v.sound;
    single = append_listing-Single ls os v.single x h;
    answered = listings-Answered ls (ls ++ x ∷ []) os (active-append ls x) v.answered;
  }
