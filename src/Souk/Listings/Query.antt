-- ===== src/Souk/Listings/Query.antt =====
-- `listListings` of soukelkanto.service.ts, with the numbers of a query as
-- listings/listings.controller.ts reads them.
use Prim.Native.Nat.{min}
use madinaty_ai_core_mesh.Base.{
  ℕ, ◌+◌, ◌-◌, ◌*◌, ◌/◌, Bool, true, ◌&&◌, ◌||◌, not, List, Option, none, some, or_else, keep_if,
  take, drop, length,
}
use madinaty_ai_core_mesh.Base.Int.{ℤ, pos, ltb_ℤ}
use madinaty_ai_core_mesh.Base.Text.{Text, is_empty, truthy}
use madinaty_ai_core_mesh.Base.Action.{Action, Result, ok}
use madinaty_ai_core_mesh.Gateway.Pages.{at_least_one, parse_int}
use madinaty_ai_core_mesh.Souk.{Souk, Listing, SoukCategory, SoukCondition, Error, is_active}

pub data Sort : Type 0 where
  newest price_asc price_desc popular : Sort

-- A number of a query: left out, NaN, or what `parseInt` read.
pub data QueryNumber : Type 0 where
  left_out nan : QueryNumber
  number : ℤ → QueryNumber

abbrev read_number : Option ℤ → QueryNumber
read_number none = nan
read_number (some z) = number z

-- `text ? parseInt(text, 10) : undefined`
unfoldable pub query_number : Option Text → QueryNumber
query_number text = elim (truthy text) [ none ↦ left_out | some t ↦ read_number (parse_int t) ]

pub record SearchParams : Type 0 where
  pub category : Option SoukCategory
  pub condition : Option SoukCondition
  pub district : Option Text
  pub min_price : QueryNumber
  pub max_price : QueryNumber
  pub q : Option Text
  pub sort : Option Sort
  pub page : QueryNumber
  pub limit : QueryNumber

pub record SearchPage : Type 0 where
  pub items : List Listing
  pub page : ℕ
  pub limit : ℕ
  pub total_items : ℕ
  pub total_pages : ℕ

-- What the search asks of the database: equality of columns, the case-insensitive `contains`,
-- `ORDER BY`, and what comes of a query that passes on a NaN.
pub record SearchEngine : Type 0 where
  pub same_category : SoukCategory → SoukCategory → Bool
  pub same_condition : SoukCondition → SoukCondition → Bool
  pub same_text : Text → Text → Bool
  pub contains : Text → Text → Bool
  pub order_by : Sort → List Listing → List Listing
  pub with_nan : SearchParams → List Listing → Result Error SearchPage

-- The numbers of a query without NaN: the page and the limit after their clamps, and the bounds of
-- the price.
pub record SearchNumbers : Type 0 where
  pub page : ℕ
  pub limit : ℕ
  pub min_price : Option ℤ
  pub max_price : Option ℤ

-- `n ?? fallback`, where `none` is NaN.
abbrev pub number_or : ℤ → QueryNumber → Option ℤ
number_or fallback left_out = some fallback
number_or fallback nan = none
number_or fallback (number z) = some z

abbrev pub bound_of : QueryNumber → Option (Option ℤ)
bound_of left_out = some none
bound_of nan = none
bound_of (number z) = some (some z)

unfoldable pub numbers_of : SearchParams → Option SearchNumbers
numbers_of p = elim (at_least_one (number_or (pos 1) p.page)) [
  | none ↦ none
  | some page ↦ elim (at_least_one (number_or (pos 20) p.limit)) [
    | none ↦ none
    | some limit ↦ elim (bound_of p.min_price) [
      | none ↦ none
      | some lo ↦ elim (bound_of p.max_price) [
        | none ↦ none
        | some hi ↦
            some (record { page = page; limit = min 50 limit; min_price = lo; max_price = hi })
      ]
    ]
  ]
]

-- A filter that is left out lets every row through.
abbrev pub passes {ℓ} : {A : Type ℓ} → Option A → (A → Bool) → Bool
passes none test = true
passes (some a) test = test a

-- `if (params.q)`: an empty text filters nothing.
abbrev pub passes_text : Option Text → (Text → Bool) → Bool
passes_text none test = true
passes_text (some t) test = is_empty t || test t

unfoldable pub is_match : SearchEngine → SearchParams → SearchNumbers → Listing → Bool
is_match db p n l =
    is_active l.status
    && passes p.category (λ c. db.same_category l.category c)
    && passes p.condition (λ c. db.same_condition l.condition c)
    && passes_text p.district (λ d. db.same_text l.district d)
    && passes n.min_price (λ lo. not (ltb_ℤ (pos l.asking_price) lo))
    && passes n.max_price (λ hi. not (ltb_ℤ hi (pos l.asking_price)))
    && passes_text p.q (λ q. db.contains q l.title || db.contains q l.description)

-- `Math.ceil(a / b)` for `b > 0`
abbrev pub div_ceil : ℕ → ℕ → ℕ
div_ceil a b = (a + (b - 1)) / b

-- The page of `found`, the rows that match in the order asked for.
unfoldable pub page_of : SearchNumbers → List Listing → ℕ → SearchPage
page_of n found total = record {
  items = take n.limit (drop ((n.page - 1) * n.limit) found);
  page = n.page;
  limit = n.limit;
  total_items = total;
  total_pages = div_ceil total n.limit;
}

unfoldable pub list_listings : SearchEngine → SearchParams → Action Error Souk SearchPage
unfolding page_of
list_listings db p s = elim (numbers_of p) [
  | none ↦ (db.with_nan p s.listings, s)
  | some n ↦
      let matches = keep_if (is_match db p n) s.listings in
      (ok (page_of n (db.order_by (or_else p.sort newest) matches) (length matches)), s)
]
