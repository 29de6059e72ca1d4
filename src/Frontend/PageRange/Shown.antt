-- ===== src/Frontend/PageRange/Shown.antt =====
-- frontend/src/components/ui/Pagination.tsx: what `buildPageRange` shows.
use mathlib.Core.Path.{subst}
use coop_lumen_index.Base.{
  ℕ, zero, suc, ◌+◌, ◌-◌, ◌≤◌, ◌<◌, ◌≡◌, ap, ◌∙◌, append-nil, inl, inr, Bool, true, false, List, [],
  ◌∷◌, ◌++◌, arith, ◌==◌, ltb, leb, any, Bool-cases,
}
use coop_lumen_index.Frontend.PageRange.{
  PageItem, page, ellipsis, pages_from, sibling_count, left_of, right_of, closing, after_first,
  build_page_range,
}
use coop_lumen_index.Frontend.PageRange.Order.{Walks, ends, pages_from-Walks, after_first-Walks}

abbrev pub is_page : ℕ → PageItem → Bool
is_page n (page m) = m == n
is_page n ellipsis = false

any-left :
    (n : ℕ) (items more : List PageItem)
    → any (is_page n) items ≡ true
    → any (is_page n) (items ++ more) ≡ true
any-left n [] more h = absurd (ground arith)
any-left n (x ∷ items) more h = let rest = any-left n items more in ground arith

any-right :
    (n : ℕ) (items more : List PageItem)
    → any (is_page n) more ≡ true
    → any (is_page n) (items ++ more) ≡ true
any-right n [] more h = h
any-right n (x ∷ items) more h = let rest = any-right n items more h in ground arith

any-pages_from :
    (n count first : ℕ)
    → first ≤ n
    → n < first + count
    → any (is_page n) (pages_from count first) ≡ true
unfolding pages_from
any-pages_from n zero first a b = absurd (omega arith)
any-pages_from n (suc count) first a b = elim (Bool-cases (first == n)) [
  | inl t ↦ ground arith
  | inr f ↦
      let rest = any-pages_from n count (first + 1) (ground arith) (omega arith) in ground arith
]

closing-last : (right total : ℕ) → any (is_page total) (closing right total) ≡ true
closing-last right total = ground arith

any-after_first :
    (current total siblings : ℕ)
    → 2 ≤ current
    → current ≤ total
    → any
        (is_page current)
        (after_first (left_of current siblings) (right_of current total siblings) total)
      ≡ true
unfolding after_first
any-after_first current total siblings a b =
    let left = left_of current siblings in
    let right = right_of current total siblings in
    let pages = pages_from (right + 1 - left) left in
    let found : any (is_page current) (pages ++ closing right total) ≡ true =
      elim (Bool-cases (current == total)) [
        | inl last ↦
            let same : total ≡ current = ground arith in
            any-right current pages (closing right total) (
              subst (λ n. any (is_page n) (closing right total) ≡ true) same
                (closing-last right total))
        | inr inside ↦
            any-left current pages (closing right total)
              (any-pages_from current (right + 1 - left) left (ground arith) (ground arith))
      ] in
    elim (Bool-cases (ltb 2 left)) [ inl far ↦ rw far found | inr near ↦ rw near found ]

-- The page buttons go from page 1 to the last page, each the next page after the one before it
-- or behind an ellipsis that leaves out at least one page, and the current page is among them,
-- if it is between 1 and the last and at least one button may be shown.
pub build_page_range-Walks :
    (current total max_visible : ℕ)
    → 1 ≤ current
    → current ≤ total
    → 1 ≤ max_visible
    → (rest : List PageItem) × (build_page_range current total max_visible ≡ page 1 ∷ rest)
      × Walks 1 rest total
      × (any (is_page current) (build_page_range current total max_visible) ≡ true)
unfolding build_page_range pages_from
build_page_range-Walks current zero max_visible a b c = absurd (omega arith)
build_page_range-Walks current (suc n) max_visible a b c =
    elim (Bool-cases (leb (suc n) max_visible)) [
      | inl few ↦
          let all_pages : build_page_range current (suc n) max_visible ≡ page 1 ∷ pages_from n 2 =
            ground arith in
          let walks = pages_from-Walks n 1 (suc n) (suc n) [] (omega arith) ends in
          (
            pages_from n 2,
            all_pages,
            subst (λ items. Walks 1 items (suc n)) (append-nil (pages_from n 2)) walks,
            ap (any (is_page current)) all_pages
                ∙ any-pages_from current (suc n) 1 (omega arith) (omega arith),
          )
      | inr many ↦
          let siblings = sibling_count max_visible in
          let rest =
            after_first (left_of current siblings) (right_of current (suc n) siblings) (suc n) in
          let some_pages : build_page_range current (suc n) max_visible ≡ page 1 ∷ rest =
            ground arith in
          let found : any (is_page current) (page 1 ∷ rest) ≡ true =
            elim (Bool-cases (1 == current)) [
              | inl first ↦ ground arith
              | inr later ↦
                  let inside = any-after_first current (suc n) siblings (ground arith) b in
                  ground arith
            ] in
          (
            rest,
            some_pages,
            after_first-Walks current (suc n) siblings a b (ground arith),
            ap (any (is_page current)) some_pages ∙ found,
          )
    ]
