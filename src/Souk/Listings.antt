-- ===== src/Souk/Listings.antt =====
-- The listings of soukelkanto.service.ts: `createListing`, `listMyListings`,
-- `getListing`, `updateListing` and `deleteListing`, and `publicUrlForKey` of
-- storage/r2-storage.service.ts. Every `now` is the clock of the call and every `fresh` the id that
-- the database draws.
pub mod Query
pub mod Search
use madinaty_ai_core_mesh.Base.{
  ℕ, ◌+◌, ◌-◌, ◌*◌, ◌/◌, Bool, true, false, ◌&&◌, ◌||◌, not, List, [], ◌∷◌, ◌++◌, Option, none,
  some, map, leb, ◌==◌, if◌then◌else◌, or_else, keep_if, take, drop, length, all,
}
use mathlib.Core.List.{reverse}
use madinaty_ai_core_mesh.Base.Int.{ℤ, pos, ltb_ℤ}
use madinaty_ai_core_mesh.Base.Text.{Text, codes, starts_with, is_empty, truthy}
use madinaty_ai_core_mesh.Base.Action.{
  Action, Result, ok, modify, or_throw, pure, throw_if, ◌>>=◌, ◌>>◌,
}
use madinaty_ai_core_mesh.Base.Table.{find, update, update_where}
use madinaty_ai_core_mesh.Core.{user_keyed}
use madinaty_ai_core_mesh.Souk.{
  Souk, Listing, Offer, OfferStatus, Photo, SoukCategory, SoukCondition, Error, Env, Effect,
  offer_keyed, listing_keyed, active, removed, listing_removed_by_seller, event, notice,
  offer_expired_listing_removed, offer_withdrawn_notice, listing_not_found, seller_not_found,
  insufficient_trust, photo_ownership_mismatch, listing_removed, not_the_owner, is_active,
  is_removed, is_open,
}
use madinaty_ai_core_mesh.Souk.Gates.{read, assert_profile_complete}

-- `publicBase.replace(/\/$/, '')`
strip_slash : Text → Text
strip_slash [] = []
strip_slash (c ∷ []) = if c == b'/' then [] else c ∷ []
strip_slash (c ∷ d ∷ s) = c ∷ strip_slash (d ∷ s)

unfoldable pub public_url_for_key : Env → Text → Option Text
unfolding strip_slash
public_url_for_key env key =
    if not env.r2_configured || is_empty env.public_base
    then none
    else some (strip_slash env.public_base ++ b'/' ∷ key)

-- A photo of a request: the key and the position. The `url` that a client sends is not read.
pub record PhotoInput : Type 0 where
  pub r2_key : Text
  pub position : ℕ

-- `uploads/${sellerId}/`
abbrev pub expected_prefix : Env → ℕ → Text
expected_prefix env seller = codes "uploads/" ++ (env.spell seller ++ codes "/")

unfoldable pub photo_row : Env → PhotoInput → Photo
unfolding public_url_for_key
photo_row env p = record {
  r2_key = p.r2_key;
  url = or_else (public_url_for_key env p.r2_key) (codes "/api/v1/uploads/" ++ p.r2_key);
  position = p.position;
}

pub record ListingInput : Type 0 where
  pub title : Text
  pub description : Text
  pub category : SoukCategory
  pub condition : SoukCondition
  pub asking_price : ℕ
  pub district : Text
  -- a missing list and an empty one are treated alike
  pub photos : List PhotoInput

unfoldable pub new_listing : Env → ℕ → ℕ → ℕ → ListingInput → Listing
unfolding photo_row
new_listing env fresh now seller dto = record {
  id = fresh;
  seller_id = seller;
  title = dto.title;
  description = dto.description;
  category = dto.category;
  condition = dto.condition;
  asking_price = dto.asking_price;
  district = dto.district;
  status = active;
  view_count = 0;
  favorite_count = pos 0;
  photos = map (photo_row env) dto.photos;
  created_at = now;
  removed_at = none;
}

unfoldable pub create_listing : Env → ℕ → ℕ → ℕ → ListingInput → Action Error Souk Listing
create_listing env fresh now seller dto = do
  row ← read λ s. find seller s.core.users
  user ← or_throw row seller_not_found
  throw_if (leb user.trust_score (or_else env.ban_threshold 20)) insufficient_trust
  assert_profile_complete env now seller
  throw_if (not (all (λ p. starts_with (expected_prefix env seller) p.r2_key) dto.photos))
      photo_ownership_mismatch
  modify λ s. record s { listings = s.listings ++ new_listing env fresh now seller dto ∷ [] }
  pure (new_listing env fresh now seller dto)

-- Newest first, at most 200.
unfoldable pub list_my_listings : ℕ → Action Error Souk (List Listing)
list_my_listings seller =
    read λ s. take 200 (reverse (keep_if (λ l. l.seller_id == seller) s.listings))

abbrev pub viewed_row : Listing → Listing
viewed_row l = record l { view_count = l.view_count + 1 }

-- The row is returned as it was before its view was counted.
unfoldable pub get_listing : ℕ → Action Error Souk Listing
get_listing id = do
  row ← read λ s. find id s.listings
  listing ← or_throw row listing_not_found
  throw_if (is_removed listing.status) listing_removed
  modify λ s. record s { listings = update id viewed_row s.listings }
  pure listing

pub record ListingEdit : Type 0 where
  pub title : Option Text
  pub description : Option Text
  pub category : Option SoukCategory
  pub condition : Option SoukCondition
  pub asking_price : Option ℕ
  pub district : Option Text

unfoldable pub edited_row : ListingEdit → Listing → Listing
edited_row dto l = record l {
  title = or_else dto.title l.title;
  description = or_else dto.description l.description;
  category = or_else dto.category l.category;
  condition = or_else dto.condition l.condition;
  asking_price = or_else dto.asking_price l.asking_price;
  district = or_else dto.district l.district;
}

unfoldable pub update_listing : ℕ → ℕ → ListingEdit → Action Error Souk (Option Listing)
unfolding edited_row
update_listing id seller dto = do
  row ← read λ s. find id s.listings
  listing ← or_throw row listing_not_found
  throw_if (not (listing.seller_id == seller)) not_the_owner
  modify λ s. record s { listings = update id (edited_row dto) s.listings }
  read λ s. find id s.listings

-- The open offers on a listing.
unfoldable pub is_open_on : ℕ → Offer → Bool
is_open_on listing o = o.listing_id == listing && is_open o.status

abbrev pub expire_row : ℕ → Offer → Offer
expire_row now o = record o {
  status = OfferStatus.expired;
  expired_at = some now;
  decline_reason = some listing_removed_by_seller;
  updated_at = now;
}

abbrev pub remove_row : ℕ → Listing → Listing
remove_row now l = record l { status = removed; removed_at = some now }

expire_effects : List Offer → List Effect
expire_effects [] = []
expire_effects (o ∷ os) =
    event offer_expired_listing_removed o.buyer_id o.id
    ∷ notice offer_withdrawn_notice o.buyer_id o.amount none
    ∷ expire_effects os

unfoldable pub delete_listing : ℕ → ℕ → ℕ → Action Error Souk (Option Listing)
unfolding expire_effects
delete_listing now id seller = do
  row ← read λ s. find id s.listings
  listing ← or_throw row listing_not_found
  throw_if (not (listing.seller_id == seller)) not_the_owner
  open_offers ← read λ s. keep_if (is_open_on id) s.offers
  modify λ s. record s { offers = update_where (is_open_on id) (expire_row now) s.offers }
  modify λ s. record s { listings = update id (remove_row now) s.listings }
  modify λ s. record s { effects = s.effects ++ expire_effects open_offers }
  read λ s. find id s.listings
