-- ===== src/Http/Pages.antt =====
-- backend/src/api/utils/http.ts: `parsePagination`, `pageMeta` and `parseSort`. `parseInt`, the
-- text of a number and `toLowerCase` are parameters; sums and quotients are those of numbers small
-- enough for a double.
use Prim.Native.String.{String}
use native.Mathlib.Nat.{le-div_iff_mul-le}
use text.Mathlib.Text.{◌==◌}
use coop_lumen_index.Base.{
  ℕ, ◌+◌, ◌-◌, ◌*◌, ◌/◌, ◌≤◌, ◌<◌, min, ◌≡◌, ◌⊎◌, true, Option, none, some, List, arith,
  if◌then◌else◌, ltb, ℤ, pos, negsuc, any, refl, ◌↔◌,
}

-- A query value: nothing, a text, or an array or object.
pub data Query : Type 0 where
  absent : Query
  single : String → Query
  composite : Query

abbrev pub query_string : Query → String → String
query_string (single s) fallback = s
query_string _ fallback = fallback

pub record PageParams : Type 0 where
  pub page : ℕ
  pub limit : ℕ
  pub offset : ℕ

pub record PageMeta : Type 0 where
  pub total : ℕ
  pub page : ℕ
  pub limit : ℕ
  pub pages : ℕ
  pub offset : ℕ

-- JavaScript's `parseInt(…, 10)`, none for NaN and Infinity; `String(…)`; and `toLowerCase`.
pub record Texts : Type 0 where
  pub parse_int : String → Option ℤ
  pub show : ℕ → String
  pub lower : String → String

-- `Number.isFinite(raw) && raw > 0 ? f(raw) : fallback`
abbrev pub positive_or : Option ℤ → (ℕ → ℕ) → ℕ → ℕ
positive_or none f fallback = fallback
positive_or (some (negsuc _)) f fallback = fallback
positive_or (some (pos n)) f fallback = if ltb 0 n then f n else fallback

-- Math.ceil(total / limit)
abbrev pub ceil_div : ℕ → ℕ → ℕ
ceil_div total limit = (total + (limit - 1)) / limit

unfoldable pub page_meta : ℕ → PageParams → PageMeta
page_meta total params = record {
  total = total;
  page = params.page;
  limit = params.limit;
  pages = if ltb 0 params.limit then ceil_div total params.limit else 0;
  offset = params.offset;
}

pub data Direction : Type 0 where
  ascending descending : Direction

pub record SortParams : Type 0 where
  pub sort_by : String
  pub order : Direction

page_bounds : (raw : Option ℤ) → 1 ≤ positive_or raw (λ n. n) 1
page_bounds none = omega arith
page_bounds (some (negsuc _)) = omega arith
page_bounds (some (pos n)) = ground arith

limit_bounds :
    (raw : Option ℤ) (default_limit max_limit : ℕ)
    → 1 ≤ default_limit
    → default_limit ≤ max_limit
    → (1 ≤ positive_or raw (λ n. min n max_limit) default_limit)
      × (positive_or raw (λ n. min n max_limit) default_limit ≤ max_limit)
limit_bounds none default_limit max_limit h k = (h, k)
limit_bounds (some (negsuc _)) default_limit max_limit h k = (h, k)
limit_bounds (some (pos n)) default_limit max_limit h k = ground arith

-- The number of pages is right: a page has a row to show, that is, its offset is below the
-- total, exactly if its number is at most the number of pages.
pub page_meta_pages :
    (total q : ℕ) (params : PageParams)
    → 0 < params.limit
    → (q * params.limit < total) ↔ (q + 1 ≤ (page_meta total params).pages)
unfolding page_meta
page_meta_pages total q params h =
    let (to, from) =
      le-div_iff_mul-le {k = params.limit} {x = q + 1} {y = total + (params.limit - 1)} h in
    let product : (q + 1) * params.limit ≡ q * params.limit + params.limit = omega arith in
    (
      (λ below. let p = from (omega (arith, product)) in ground arith),
      (λ within. let p = to (ground arith) in omega (arith, product)),
    )

module _ (T : Texts) where
  open T use {parse_int, show, lower}

  unfoldable pub parse_pagination : Query → Query → ℕ → ℕ → PageParams
  parse_pagination page_query limit_query default_limit max_limit =
      let page = positive_or (parse_int (query_string page_query "1")) (λ n. n) 1 in
      let limit =
        positive_or (parse_int (query_string limit_query (show default_limit)))
          (λ n. min n max_limit) default_limit in
      record { page = page; limit = limit; offset = (page - 1) * limit }

  unfoldable pub parse_sort : Query → Query → List String → String → SortParams
  parse_sort sort_query order_query allowed default_column =
      let requested = query_string sort_query "" in
      record {
        sort_by = if any (λ a. a == requested) allowed then requested else default_column;
        order = if lower (query_string order_query "") == "asc" then ascending else descending;
      }

  -- Whatever the query says, the page is at least 1, the limit lies between 1 and the maximum,
  -- and the offset is that of the page, if the default limit is between 1 and the maximum.
  pub parse_pagination_bounds :
      (page_query limit_query : Query) (default_limit max_limit : ℕ)
      → 1 ≤ default_limit
      → default_limit ≤ max_limit
      → let p = parse_pagination page_query limit_query default_limit max_limit in
        (1 ≤ p.page) × (1 ≤ p.limit) × (p.limit ≤ max_limit) × (p.offset ≡ (p.page - 1) * p.limit)
  unfolding parse_pagination
  parse_pagination_bounds page_query limit_query default_limit max_limit h k =
      let page_raw = parse_int (query_string page_query "1") in
      let limit_raw = parse_int (query_string limit_query (show default_limit)) in
      (
        page_bounds page_raw,
        (limit_bounds limit_raw default_limit max_limit h k).0,
        (limit_bounds limit_raw default_limit max_limit h k).1,
        refl,
      )

  -- The column is the default one or one of those allowed, so it is never the client's own text.
  pub parse_sort_allowed :
      (sort_query order_query : Query) (allowed : List String) (default_column : String)
      → let s = parse_sort sort_query order_query allowed default_column in
        (s.sort_by ≡ default_column) ⊎ (any (λ a. a == s.sort_by) allowed ≡ true)
  unfolding parse_sort
  parse_sort_allowed sort_query order_query allowed default_column = ground arith
