-- ===== src/Souk/Favorites.antt =====
-- The favorites of soukelkanto.service.ts: `addFavorite`, `removeFavorite` and `listFavorites`.
pub mod Counting
use madinaty_ai_core_mesh.Base.{
  ℕ, Bool, ◌&&◌, not, List, [], ◌∷◌, ◌++◌, Option, ◌==◌, if◌then◌else◌, any, keep_if, is_some,
}
use mathlib.Core.List.{reverse}
use madinaty_ai_core_mesh.Base.Int.{pos, ◌+ℤ◌, ◌-ℤ◌}
use madinaty_ai_core_mesh.Base.Action.{Action, modify, or_throw, pure, ◌>>=◌, ◌>>◌}
use madinaty_ai_core_mesh.Base.Table.{find, update}
use madinaty_ai_core_mesh.Souk.{Souk, Listing, Favorite, Error, listing_keyed, listing_not_found}
use madinaty_ai_core_mesh.Souk.Gates.{read}

-- The unique index of a favorite: user and listing.
abbrev pub is_favorite : ℕ → ℕ → Favorite → Bool
is_favorite user listing f = f.user_id == user && f.listing_id == listing

abbrev pub more_row : Listing → Listing
more_row l = record l { favorite_count = l.favorite_count +ℤ pos 1 }

abbrev pub fewer_row : Listing → Listing
fewer_row l = record l { favorite_count = l.favorite_count -ℤ pos 1 }

-- `upsert` with an empty update: a favorite that is there stays.
unfoldable pub upsert_favorite : ℕ → ℕ → List Favorite → List Favorite
upsert_favorite user listing fs =
    if any (is_favorite user listing) fs
    then fs
    else fs ++ record { user_id = user; listing_id = listing } ∷ []

unfoldable pub add_favorite : ℕ → ℕ → Action Error Souk Favorite
unfolding upsert_favorite
add_favorite user listing_id = do
  row ← read λ s. find listing_id s.listings
  or_throw row listing_not_found
  modify λ s. record s { favorites = upsert_favorite user listing_id s.favorites }
  modify λ s. record s { listings = update listing_id more_row s.listings }
  pure (record { user_id = user; listing_id = listing_id })

-- `delete` by the unique index takes the one row out, and throws where there is none: the catch
-- then skips the count. The count's own update throws for a listing that is not there, which the
-- catch ignores too.
unfoldable pub remove_favorite : ℕ → ℕ → Action Error Souk (Unit {0})
remove_favorite user listing_id = modify λ s.
    if any (is_favorite user listing_id) s.favorites
    then record s {
      favorites = keep_if (λ f. not (is_favorite user listing_id f)) s.favorites;
      listings = update listing_id fewer_row s.listings;
    }
    else s

unfoldable pub list_favorites : ℕ → Action Error Souk (List Favorite)
list_favorites user = read λ s. reverse (keep_if (λ f. f.user_id == user) s.favorites)
