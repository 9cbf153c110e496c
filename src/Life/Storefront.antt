-- ===== src/Life/Storefront.antt =====
-- The storefronts of life.service.ts: the items, bookings, posts and photos of a place. Prices and
-- metadata are only stored: their types `F` and `J` are parameters. The database refuses the update
-- and the deletion of a row that is not there, and a row of a place that is not there.
pub mod Desk
use madinaty_ai_core_mesh.Base.{
  ℕ, Bool, true, false, not, ◌&&◌, List, [], ◌∷◌, ◌++◌, Option, none, some, ◌==◌, if◌then◌else◌,
  or_else, keep_if,
}
use mathlib.Core.List.{reverse}
use madinaty_ai_core_mesh.Base.Text.{Text}
use madinaty_ai_core_mesh.Base.Int.{ℤ, pos}
use madinaty_ai_core_mesh.Base.Action.{
  Action, Result, ok, err, pure, throw, gets, modify, or_throw, ◌>>=◌, ◌>>◌,
}
use madinaty_ai_core_mesh.Base.Table.{Keyed, find, update}
use madinaty_ai_core_mesh.Life.{Location, location_keyed, over}

pub data ItemType : Type 0 where
  menu_item product exhibit medical_service : ItemType

pub data BookingType : Type 0 where
  table_reservation clinic_appointment product_order : BookingType

pub data BookingStatus : Type 0 where
  pending confirmed cancelled completed : BookingStatus

pub record Item (F J : Type 0) : Type 0 where
  pub id : ℕ
  pub location_id : ℕ
  pub title : Text
  pub title_ar : Option Text
  pub description : Option Text
  pub description_ar : Option Text
  pub price : Option F
  pub image_url : Option Text
  pub category : Option Text
  pub is_available : Bool
  pub kind : ItemType
  pub metadata : J

pub record Booking (J : Type 0) : Type 0 where
  pub id : ℕ
  pub location_id : ℕ
  pub customer_name : Text
  pub customer_phone : Text
  pub date_time : Option ℕ
  pub status : BookingStatus
  pub kind : BookingType
  pub notes : Option Text
  pub metadata : J

pub record Post : Type 0 where
  pub id : ℕ
  pub location_id : ℕ
  pub title : Text
  pub content : Text
  pub image_url : Option Text
  pub is_active : Bool

pub record Photo : Type 0 where
  pub id : ℕ
  pub location_id : ℕ
  pub url : Text
  pub caption : Option Text
  pub position : ℤ

pub record Storefront (F J : Type 0) : Type 0 where
  pub locations : List (Location F J)
  pub items : List (Item F J)
  pub bookings : List (Booking J)
  pub posts : List Post
  pub photos : List Photo

instance abbrev pub item_keyed : {F J : Type 0} → Keyed (Item F J)
item_keyed = record { key = λ i. i.id }

instance abbrev pub booking_keyed : {J : Type 0} → Keyed (Booking J)
booking_keyed = record { key = λ b. b.id }

instance abbrev pub post_keyed : Keyed Post
post_keyed = record { key = λ p. p.id }

instance abbrev pub photo_keyed : Keyed Photo
photo_keyed = record { key = λ p. p.id }

pub data Error : Type 0 where
  row_not_found foreign_key_violated : Error

pub record ItemInput (F J : Type 0) : Type 0 where
  pub title : Text
  pub title_ar : Option Text
  pub description : Option Text
  pub description_ar : Option Text
  pub price : Option F
  pub image_url : Option Text
  pub category : Option Text
  pub kind : ItemType
  pub metadata : Option J

pub record ItemEdit (F J : Type 0) : Type 0 where
  pub title : Option Text
  pub title_ar : Option Text
  pub description : Option Text
  pub description_ar : Option Text
  pub price : Option F
  pub image_url : Option Text
  pub category : Option Text
  pub is_available : Option Bool
  pub kind : Option ItemType
  pub metadata : Option J

pub record BookingInput (J : Type 0) : Type 0 where
  pub customer_name : Text
  pub customer_phone : Text
  pub date_time : Option ℕ
  pub kind : BookingType
  pub notes : Option Text
  pub metadata : Option J

pub record PostInput : Type 0 where
  pub title : Text
  pub content : Text
  pub image_url : Option Text

pub record PhotoInput : Type 0 where
  pub url : Text
  pub caption : Option Text
  pub position : Option ℤ

-- `delete({ where: { id } })`
abbrev pub without : {R : Type 0} ⦃k : Keyed R⦄ → ℕ → List R → List R
without ⦃k⦄ id rs = keep_if (λ r. not (k.key r == id)) rs

module _ {F J : Type 0} where
  -- `orderBy: { createdAt: 'desc' }`
  unfoldable pub get_items : ℕ → Storefront F J → List (Item F J)
  get_items location_id s = reverse (keep_if (λ i. i.location_id == location_id) s.items)

  unfoldable pub create_item : J → ℕ → ℕ → ItemInput F J → Action Error (Storefront F J) (Item F J)
  create_item no_metadata fresh location_id dto = do
    place ← gets λ s. find location_id s.locations
    _ ← or_throw place foreign_key_violated
    let row : Item F J = record {
      id = fresh;
      location_id = location_id;
      title = dto.title;
      title_ar = dto.title_ar;
      description = dto.description;
      description_ar = dto.description_ar;
      price = dto.price;
      image_url = dto.image_url;
      category = dto.category;
      is_available = true;
      kind = dto.kind;
      metadata = or_else dto.metadata no_metadata;
    }
    modify λ s. record s { items = s.items ++ row ∷ [] }
    pure row

  abbrev pub edit_item : ItemEdit F J → Item F J → Item F J
  edit_item dto i = record i {
    title = or_else dto.title i.title;
    title_ar = over dto.title_ar i.title_ar;
    description = over dto.description i.description;
    description_ar = over dto.description_ar i.description_ar;
    price = over dto.price i.price;
    image_url = over dto.image_url i.image_url;
    category = over dto.category i.category;
    is_available = or_else dto.is_available i.is_available;
    kind = or_else dto.kind i.kind;
    metadata = or_else dto.metadata i.metadata;
  }

  unfoldable pub update_item : ℕ → ItemEdit F J → Action Error (Storefront F J) (Item F J)
  update_item id dto = do
    row ← gets λ s. find id s.items
    item ← or_throw row row_not_found
    modify λ s. record s { items = update id (edit_item dto) s.items }
    pure (edit_item dto item)

  unfoldable pub delete_item : ℕ → Action Error (Storefront F J) (Item F J)
  delete_item id = do
    row ← gets λ s. find id s.items
    item ← or_throw row row_not_found
    modify λ s. record s { items = without id s.items }
    pure item
