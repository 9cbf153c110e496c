-- ===== src/Life/Storefront/Desk.antt =====
-- The bookings, posts and photos of a place (life.service.ts).
use madinaty_ai_core_mesh.Base.{
  ℕ, true, ◌&&◌, List, [], ◌∷◌, ◌++◌, Option, none, some, ◌==◌, or_else, keep_if,
}
use mathlib.Core.List.{reverse}
use madinaty_ai_core_mesh.Base.Int.{pos}
use madinaty_ai_core_mesh.Base.Action.{Action, pure, gets, modify, or_throw, ◌>>=◌, ◌>>◌}
use madinaty_ai_core_mesh.Base.Table.{find, update}
use madinaty_ai_core_mesh.Life.{location_keyed}
use madinaty_ai_core_mesh.Life.Storefront.{
  Storefront, Booking, BookingType, BookingStatus, BookingInput, Post, PostInput, Photo, PhotoInput,
  Error, row_not_found, foreign_key_violated, without, booking_keyed, post_keyed, photo_keyed,
  table_reservation, clinic_appointment, product_order, pending, confirmed, cancelled, completed,
}

abbrev type_number : BookingType → ℕ
type_number table_reservation = 0
type_number clinic_appointment = 1
type_number product_order = 2

abbrev status_number : BookingStatus → ℕ
status_number pending = 0
status_number confirmed = 1
status_number cancelled = 2
status_number completed = 3

module _ {F J : Type 0} where
  -- A filter that is left out lets every booking pass.
  unfoldable pub get_bookings :
      ℕ → Option BookingType → Option BookingStatus → Storefront F J → List (Booking J)
  get_bookings location_id kind status s = reverse (
      keep_if
        (λ b.
          b.location_id == location_id
          && elim kind [ none ↦ true | some k ↦ type_number b.kind == type_number k ]
          && elim status [ none ↦ true | some t ↦ status_number b.status == status_number t ])
        s.bookings)

  unfoldable pub create_booking :
      J → ℕ → ℕ → BookingInput J → Action Error (Storefront F J) (Booking J)
  create_booking no_metadata fresh location_id dto = do
    place ← gets λ s. find location_id s.locations
    _ ← or_throw place foreign_key_violated
    let row : Booking J = record {
      id = fresh;
      location_id = location_id;
      customer_name = dto.customer_name;
      customer_phone = dto.customer_phone;
      date_time = dto.date_time;
      status = pending;
      kind = dto.kind;
      notes = dto.notes;
      metadata = or_else dto.metadata no_metadata;
    }
    modify λ s. record s { bookings = s.bookings ++ row ∷ [] }
    pure row

  unfoldable pub update_booking_status :
      ℕ → BookingStatus → Action Error (Storefront F J) (Booking J)
  update_booking_status id status = do
    row ← gets λ s. find id s.bookings
    booking ← or_throw row row_not_found
    modify λ s. record s { bookings = update id (λ b. record b { status = status }) s.bookings }
    pure (record booking { status = status })

  unfoldable pub get_posts : ℕ → Storefront F J → List Post
  get_posts location_id s = reverse (keep_if (λ p. p.location_id == location_id) s.posts)

  unfoldable pub create_post : ℕ → ℕ → PostInput → Action Error (Storefront F J) Post
  create_post fresh location_id dto = do
    place ← gets λ s. find location_id s.locations
    _ ← or_throw place foreign_key_violated
    let row : Post = record {
      id = fresh;
      location_id = location_id;
      title = dto.title;
      content = dto.content;
      image_url = dto.image_url;
      is_active = true;
    }
    modify λ s. record s { posts = s.posts ++ row ∷ [] }
    pure row

  unfoldable pub delete_post : ℕ → Action Error (Storefront F J) Post
  delete_post id = do
    row ← gets λ s. find id s.posts
    post ← or_throw row row_not_found
    modify λ s. record s { posts = without id s.posts }
    pure post

  -- `by_position` is the database's `orderBy: { position: 'asc' }`.
  unfoldable pub get_photos : (List Photo → List Photo) → ℕ → Storefront F J → List Photo
  get_photos by_position location_id s =
      by_position (keep_if (λ p. p.location_id == location_id) s.photos)

  unfoldable pub add_photo : ℕ → ℕ → PhotoInput → Action Error (Storefront F J) Photo
  add_photo fresh location_id dto = do
    place ← gets λ s. find location_id s.locations
    _ ← or_throw place foreign_key_violated
    let row : Photo = record {
      id = fresh;
      location_id = location_id;
      url = dto.url;
      caption = dto.caption;
      position = or_else dto.position (pos 0);
    }
    modify λ s. record s { photos = s.photos ++ row ∷ [] }
    pure row

  unfoldable pub delete_photo : ℕ → Action Error (Storefront F J) Photo
  delete_photo id = do
    row ← gets λ s. find id s.photos
    photo ← or_throw row row_not_found
    modify λ s. record s { photos = without id s.photos }
    pure photo
