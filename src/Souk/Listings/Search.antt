-- ===== src/Souk/Listings/Search.antt =====
-- The pages of the search.
use Prim.Native.Nat.{min, max}
use madinaty_ai_core_mesh.Base.{
  ℕ, ◌+◌, ◌-◌, ◌*◌, ◌≤◌, ◌≡◌, ◌⊎◌, ◌↔◌, Bool, true, List, Option, none, some, length, keep_if, All,
}
use madinaty_ai_core_mesh.Base.Action.{Result, ok, err}
use madinaty_ai_core_mesh.Base.Int.{pos, negsuc, ◌≤ℤ◌}
use madinaty_ai_core_mesh.Base.Text.{truthy}
use madinaty_ai_core_mesh.Souk.{Souk, Listing, Error, active}
use madinaty_ai_core_mesh.Souk.Listings.Query.{
  SearchEngine, SearchParams, SearchNumbers, SearchPage, QueryNumber, left_out, nan, number,
  numbers_of, bound_of,
}

-- `P` of what is given, if anything is.
abbrev pub Given {ℓ} : {A : Type ℓ} → Option A → (A → Type 0) → Type 0
Given none P = Unit {0}
Given (some a) P = P a

-- A bound of the price that a request gives.
abbrev pub AtLeast : QueryNumber → ℕ → Type 0
AtLeast left_out price = Unit {0}
AtLeast nan price = ⊥
AtLeast (number z) price = z ≤ℤ pos price

abbrev pub AtMost : QueryNumber → ℕ → Type 0
AtMost left_out price = Unit {0}
AtMost nan price = ⊥
AtMost (number z) price = pos price ≤ℤ z

-- A listing that the search is meant to find.
pub record IsHit (db : SearchEngine) (p : SearchParams) (l : Listing) : Type 0 where
  pub on_sale : l.status ≡ active
  pub category : Given p.category (λ c. db.same_category l.category c ≡ true)
  pub condition : Given p.condition (λ c. db.same_condition l.condition c ≡ true)
  pub district : Given (truthy p.district) (λ d. db.same_text l.district d ≡ true)
  pub at_least : AtLeast p.min_price l.asking_price
  pub at_most : AtMost p.max_price l.asking_price
  pub words :
      Given
        (truthy p.q)
        (λ q. (db.contains q l.title ≡ true) ⊎ (db.contains q l.description ≡ true))

-- A number of a page: the fallback where it is left out, and at least 1.
abbrev pub IsClamped : ℕ → QueryNumber → ℕ → Type 0
IsClamped fallback left_out k = k ≡ fallback
IsClamped fallback nan k = ⊥
IsClamped fallback (number (pos m)) k = k ≡ max 1 m
IsClamped fallback (number (negsuc _)) k = k ≡ 1

abbrev pub IsNumber : QueryNumber → Type 0
IsNumber nan = ⊥
IsNumber _ = Unit {0}

abbrev pub HasNumbers : SearchParams → Type 0
HasNumbers p = IsNumber p.page × IsNumber p.limit × IsNumber p.min_price × IsNumber p.max_price

-- The numbers of a request as the search reads them.
record IsRead (p : SearchParams) (n : SearchNumbers) : Type 0 where
  numbers : numbers_of p ≡ some n
  lower : bound_of p.min_price ≡ some n.min_price
  upper : bound_of p.max_price ≡ some n.max_price
  page : IsClamped 1 p.page n.page
  first : 1 ≤ n.page
  limit : (k : ℕ) × IsClamped 20 p.limit k × (n.limit ≡ min 50 k) × (1 ≤ k)

-- A page of a search over `ls`.
abbrev pub IsPageOf : SearchEngine → SearchParams → List Listing → Result Error SearchPage → Type 0
IsPageOf db p ls (err _) = ⊥
IsPageOf db p ls (ok r) =
    (test : Listing → Bool) × ((l : Listing) → (test l ≡ true) ↔ IsHit db p l)
    × All (IsHit db p) r.items
    × (IsClamped 1 p.page r.page × (1 ≤ r.page))
    × ((k : ℕ) × IsClamped 20 p.limit k × (r.limit ≡ min 50 k) × (1 ≤ k))
    × (r.total_items ≡ length (keep_if test ls))
    × (length r.items ≡ min r.limit (r.total_items - (r.page - 1) * r.limit))
    × (r.total_items ≤ r.total_pages * r.limit)
    × (r.total_pages * r.limit + 1 ≤ r.total_items + r.limit)
