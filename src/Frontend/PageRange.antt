-- ===== src/Frontend/PageRange.antt =====
-- frontend/src/components/ui/Pagination.tsx: `buildPageRange`.
pub mod Order
pub mod Shown
use mathlib.Core.Path.{subst}
use coop_lumen_index.Base.{
  ℕ, zero, suc, ◌+◌, ◌-◌, ◌/◌, ◌≤◌, ◌<◌, ◌≡◌, ap, ◌∙◌, append-nil, inl, inr, Bool, true, false,
  List, [], ◌∷◌, ◌++◌, arith, if◌then◌else◌, ◌==◌, ltb, leb, any, min, max, Bool-cases,
}

pub data PageItem : Type 0 where
  page : ℕ → PageItem
  ellipsis : PageItem

-- The pages from `first` on, as many as `count`.
unfoldable pub pages_from : ℕ → ℕ → List PageItem
pages_from zero first = []
pages_from (suc count) first = page first ∷ pages_from count (first + 1)

abbrev pub sibling_count : ℕ → ℕ
sibling_count max_visible = (max_visible - 4) / 2

abbrev pub left_of : ℕ → ℕ → ℕ
left_of current siblings = max 2 (current - siblings)

abbrev pub right_of : ℕ → ℕ → ℕ → ℕ
right_of current total siblings = min (total - 1) (current + siblings)

-- `if (right < total - 1) pages.push('…')`, and the last page.
abbrev pub closing : ℕ → ℕ → List PageItem
closing right total = if ltb right (total - 1) then ellipsis ∷ page total ∷ [] else page total ∷ []

-- What follows the first page, with the loop from `left` to `right`.
unfoldable pub after_first : ℕ → ℕ → ℕ → List PageItem
after_first left right total =
    let rest = pages_from (right + 1 - left) left ++ closing right total in
    if ltb 2 left then ellipsis ∷ rest else rest

unfoldable pub build_page_range : ℕ → ℕ → ℕ → List PageItem
build_page_range current total max_visible =
    if leb total max_visible
    then pages_from total 1
    else page 1
      ∷ after_first (left_of current (sibling_count max_visible))
          (right_of current total (sibling_count max_visible)) total
