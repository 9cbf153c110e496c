-- ===== src/Gateway/Pages.antt =====
-- libs/gateway/src/pagination/pagination.ts: the page parameters of a request and the page that is
-- returned. A `none` among the numbers is NaN.
use Prim.Native.Nat.{min, max}
use madinaty_ai_core_mesh.Base.{
  ℕ, ◌+◌, ◌-◌, ◌*◌, ◌/◌, Bool, ◌&&◌, List, [], ◌∷◌, Option, none, some, leb, ◌==◌, if◌then◌else◌,
  or_else,
}
use madinaty_ai_core_mesh.Base.Int.{ℤ, pos, negsuc, ◌-ℤ◌}
use madinaty_ai_core_mesh.Base.Text.{Text, codes, trim}

abbrev is_decimal : ℕ → Bool
is_decimal c = leb b'0' c && leb c b'9'

-- The value of the digits at the front, with that of those before them.
unfoldable pub read_digits : ℕ → Text → ℕ
read_digits n [] = n
read_digits n (c ∷ s) =
    let more = read_digits (n * 10 + (c - b'0')) s in if is_decimal c then more else n

unfoldable pub unsigned : Text → Option ℕ
unsigned [] = none
unsigned (c ∷ s) = if is_decimal c then some (read_digits 0 (c ∷ s)) else none

abbrev negated : Option ℕ → Option ℤ
negated none = none
negated (some n) = some (pos 0 -ℤ pos n)

abbrev as_it_is : Option ℕ → Option ℤ
as_it_is none = none
as_it_is (some n) = some (pos n)

-- `parseInt(s, 10)` after the white space.
unfoldable pub signed : Text → Option ℤ
signed [] = none
signed (c ∷ s) =
    if c == b'-'
    then negated (unsigned s)
    else if c == b'+'
    then as_it_is (unsigned s)
    else as_it_is (unsigned (c ∷ s))

unfoldable pub parse_int : Text → Option ℤ
parse_int s = signed (trim s)

-- `Math.max(1, n)`
abbrev pub at_least_one : Option ℤ → Option ℕ
at_least_one none = none
at_least_one (some (pos n)) = some (max 1 n)
at_least_one (some (negsuc n)) = some 1

-- `Math.min(100, n)`
abbrev pub at_most_hundred : Option ℕ → Option ℕ
at_most_hundred none = none
at_most_hundred (some n) = some (min 100 n)

pub record PageParams : Type 0 where
  pub page : Option ℕ
  pub limit : Option ℕ

-- `@Pagination()`, on the query's `page` and `limit`.
unfoldable pub pagination : Option Text → Option Text → PageParams
pagination page limit = record {
  page = at_least_one (parse_int (or_else page (codes "1")));
  limit = at_most_hundred (at_least_one (parse_int (or_else limit (codes "20"))));
}

pub record PageDto (A : Type 0) : Type 0 where
  pub items : List A
  pub page : Option ℕ
  pub limit : Option ℕ
  pub total_items : ℕ
  pub total_pages : Option ℕ

-- `Math.ceil(totalItems / params.limit)`, where a limit is at least 1.
abbrev pub pages_of : ℕ → Option ℕ → Option ℕ
pages_of total_items none = none
pages_of total_items (some limit) = some ((total_items + (limit - 1)) / limit)

unfoldable pub page_dto : {A : Type 0} → List A → ℕ → PageParams → PageDto A
page_dto items total_items params = record {
  items = items;
  page = params.page;
  limit = params.limit;
  total_items = total_items;
  total_pages = pages_of total_items params.limit;
}
