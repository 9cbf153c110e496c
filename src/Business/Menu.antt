-- ===== src/Business/Menu.antt =====
-- The menus of the kitchens (business.service.ts). Prices are only stored: their type `F` is a
-- parameter.
use mathlib.Core.List.{reverse}
use madinaty_ai_core_mesh.Base.{
  ℕ, Bool, true, not, ◌&&◌, List, [], ◌∷◌, ◌++◌, Option, ◌==◌, or_else, find_first, keep_if,
}
use madinaty_ai_core_mesh.Base.Text.{Text, codes}
use madinaty_ai_core_mesh.Base.Action.{Action, pure, gets, modify, or_throw, ◌>>=◌, ◌>>◌}
use madinaty_ai_core_mesh.Base.Table.{find, update_where, Keyed}
use madinaty_ai_core_mesh.Business.{
  Businesses, MenuItem, Error, row_not_found, foreign_key_violated, over, business_keyed,
}

pub record MenuItemInput (F : Type 0) : Type 0 where
  pub title : Text
  pub description : Option Text
  pub price : Option F
  pub category : Option Text
  pub image_url : Option Text
  pub is_available : Option Bool
  pub schedule_type : Option Text

pub record MenuItemEdit (F : Type 0) : Type 0 where
  pub title : Option Text
  pub description : Option Text
  pub price : Option F
  pub category : Option Text
  pub image_url : Option Text
  pub is_available : Option Bool
  pub schedule_type : Option Text

instance abbrev pub menu_item_keyed : {F : Type 0} → Keyed (MenuItem F)
menu_item_keyed = record { key = λ i. i.id }

module _ {F : Type 0} where
  -- `where: { id: itemId, businessId }`
  abbrev pub is_item_of : ℕ → ℕ → MenuItem F → Bool
  is_item_of business item i = i.id == item && i.business_id == business

  abbrev pub edit_item : MenuItemEdit F → MenuItem F → MenuItem F
  edit_item dto i = record i {
    title = or_else dto.title i.title;
    description = over dto.description i.description;
    price = over dto.price i.price;
    category = over dto.category i.category;
    image_url = over dto.image_url i.image_url;
    is_available = or_else dto.is_available i.is_available;
    schedule_type = or_else dto.schedule_type i.schedule_type;
  }

module _ {F J : Type 0} where
  unfoldable pub get_menu_items : ℕ → Businesses F J → List (MenuItem F)
  get_menu_items business s = reverse (keep_if (λ i. i.business_id == business) s.menu_items)

  unfoldable pub create_menu_item :
      ℕ → ℕ → MenuItemInput F → Action Error (Businesses F J) (MenuItem F)
  create_menu_item fresh business dto = do
    kitchen ← gets λ s. find business s.kitchens
    _ ← or_throw kitchen foreign_key_violated
    let row : MenuItem F = record {
      id = fresh;
      business_id = business;
      title = dto.title;
      description = dto.description;
      price = dto.price;
      category = dto.category;
      image_url = dto.image_url;
      is_available = or_else dto.is_available true;
      schedule_type = or_else dto.schedule_type (codes "ALL_DAY");
    }
    modify λ s. record s { menu_items = s.menu_items ++ row ∷ [] }
    pure row

  unfoldable pub update_menu_item :
      ℕ → ℕ → MenuItemEdit F → Action Error (Businesses F J) (MenuItem F)
  update_menu_item business item dto = do
    row ← gets λ s. find_first (is_item_of business item) s.menu_items
    i ← or_throw row row_not_found
    modify λ s. record s {
      menu_items = update_where (is_item_of business item) (edit_item dto) s.menu_items;
    }
    pure (edit_item dto i)

  unfoldable pub delete_menu_item : ℕ → ℕ → Action Error (Businesses F J) (MenuItem F)
  delete_menu_item business item = do
    row ← gets λ s. find_first (is_item_of business item) s.menu_items
    i ← or_throw row row_not_found
    modify
        λ s. record s { menu_items = keep_if (λ x. not (is_item_of business item x)) s.menu_items }
    pure i
