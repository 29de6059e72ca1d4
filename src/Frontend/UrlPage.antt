-- ===== src/Frontend/UrlPage.antt =====
-- frontend/src/hooks/usePagination.ts: the page in the query of the URL. The query is seen as the
-- value of the hook's parameter, none if it is not there; targets are numbers from 0 on.
use coop_lumen_index.Base.{
  ℕ, ◌+◌, ◌-◌, ◌≤◌, ◌≡◌, ◌∙◌, inl, inr, Option, none, some, arith, if◌then◌else◌, ◌==◌, ltb, min,
  max, Bool-cases, Option-cases,
}

-- The floor of `Number(value)` if that is finite and at least 1, and `String(n)`.
pub record Numerals : Type 0 where
  pub number : ℕ → Option ℕ
  pub show : ℕ → ℕ

module _ (N : Numerals) where
  abbrev pub page_or_first : Option ℕ → ℕ
  page_or_first none = 1
  page_or_first (some n) = n

  abbrev pub number_of : Option ℕ → Option ℕ
  number_of none = none
  number_of (some value) = N.number value

  unfoldable pub parse_page : Option ℕ → ℕ → ℕ
  parse_page value total_pages = min (page_or_first (number_of value)) (max 1 total_pages)

  -- `page` of the hook.
  abbrev pub page_of : Option ℕ → ℕ → ℕ
  page_of value total_pages = parse_page value (max 1 total_pages)

  -- What setPage leaves in the URL.
  unfoldable pub set_page : ℕ → ℕ → Option ℕ
  set_page target total_pages =
      let next = min (max 1 target) (max 1 total_pages) in
      if next == 1 then none else some (N.show next)

  unfoldable pub next_page : Option ℕ → ℕ → Option ℕ
  next_page value total_pages =
      if ltb (page_of value total_pages) (max 1 total_pages)
      then set_page (page_of value total_pages + 1) total_pages
      else value

  unfoldable pub prev_page : Option ℕ → ℕ → Option ℕ
  prev_page value total_pages =
      if ltb 1 (page_of value total_pages)
      then set_page (page_of value total_pages - 1) total_pages
      else value

  -- JavaScript reads back a page that it wrote, and `number` gives pages from 1 on.
  pub record ReadsBack : Type 0 where
    pub number-show : (n : ℕ) → 1 ≤ n → N.number (N.show n) ≡ some n
    pub from_one : (value n : ℕ) → N.number value ≡ some n → 1 ≤ n

  module _ (laws : ReadsBack) where
    page_of-set_page :
        (target total_pages : ℕ)
        → page_of (set_page target total_pages) total_pages ≡ min (max 1 target) (max 1 total_pages)
    unfolding parse_page set_page
    page_of-set_page target total_pages =
        let next = min (max 1 target) (max 1 total_pages) in
        let back = laws.number-show next (ground arith) in ground arith

    page_of-bounds :
        (value : Option ℕ) (total_pages : ℕ)
        → (1 ≤ page_of value total_pages) × (page_of value total_pages ≤ max 1 total_pages)
    unfolding parse_page
    page_of-bounds none total_pages = (ground arith, ground arith)
    page_of-bounds (some v) total_pages = elim (Option-cases (N.number v)) [
      | inl e ↦ (ground arith, ground arith)
      | inr (n, e) ↦ let positive = laws.from_one v n e in (ground arith, ground arith)
    ]

    page_of-next_page :
        (value : Option ℕ) (total_pages : ℕ)
        → page_of (next_page value total_pages) total_pages
          ≡ min (page_of value total_pages + 1) (max 1 total_pages)
    unfolding next_page
    page_of-next_page value total_pages =
        let ahead = page_of-set_page (page_of value total_pages + 1) total_pages in
        let (first, last) = page_of-bounds value total_pages in
        elim (Bool-cases (ltb (page_of value total_pages) (max 1 total_pages))) [
          | inl t ↦ rw (t, next_page) (ahead ∙ ground arith)
          | inr f ↦ rw (f, next_page) (ground arith)
        ]

    page_of-prev_page :
        (value : Option ℕ) (total_pages : ℕ)
        → page_of (prev_page value total_pages) total_pages ≡ max (page_of value total_pages - 1) 1
    unfolding prev_page
    page_of-prev_page value total_pages =
        let back = page_of-set_page (page_of value total_pages - 1) total_pages in
        let (first, last) = page_of-bounds value total_pages in
        elim (Bool-cases (ltb 1 (page_of value total_pages))) [
          | inl t ↦ rw (t, prev_page) (back ∙ ground arith)
          | inr f ↦ rw (f, prev_page) (ground arith)
        ]

    -- The page that is read back from the URL after setPage is the target, brought between 1 and
    -- the number of pages; after nextPage and prevPage it is the next and the previous page, or
    -- the same at the ends, where JavaScript reads back the numbers it writes and a page that is
    -- read is from 1 on.
    pub pages_turn :
        (value : Option ℕ) (target total_pages : ℕ)
        → (page_of (set_page target total_pages) total_pages
            ≡ min (max 1 target) (max 1 total_pages))
          × (page_of (next_page value total_pages) total_pages
              ≡ min (page_of value total_pages + 1) (max 1 total_pages))
          × (page_of (prev_page value total_pages) total_pages
              ≡ max (page_of value total_pages - 1) 1)
    pages_turn value target total_pages = (
      page_of-set_page target total_pages,
      page_of-next_page value total_pages,
      page_of-prev_page value total_pages,
    )
