-- ===== src/Listings.antt =====
-- backend/src/api/routes: the listings that routes answer page by page. Each counts the rows that its
-- WHERE keeps, and selects one page of them in the order of its ORDER BY.
pub mod Pages
pub mod Histories
pub mod Export
mod Examples
use coop_lumen_index.Base.{ℕ, Bool, List, length, take, drop, filter}
use coop_lumen_index.Http.Pages.{PageParams, PageMeta, page_meta}

-- `{ data, meta }`
pub record Listing (A : Type 0) : Type 0 where
  pub data_rows : List A
  pub meta : PageMeta

-- LIMIT … OFFSET …
unfoldable pub rows_of_page : {A : Type 0} → PageParams → List A → List A
rows_of_page params rows = take params.limit (drop params.offset rows)

-- The two statements and the answer, where `arrange` is PostgreSQL's ORDER BY.
unfoldable pub listing :
    {A : Type 0} → (A → Bool) → (List A → List A) → PageParams → List A → Listing A
unfolding rows_of_page
listing keeps arrange params rows = record {
  data_rows = rows_of_page params (arrange (filter keeps rows));
  meta = page_meta (length (filter keeps rows)) params;
}
