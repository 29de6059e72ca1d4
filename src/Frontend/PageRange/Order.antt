-- ===== src/Frontend/PageRange/Order.antt =====
-- frontend/src/components/ui/Pagination.tsx: the order of the items of `buildPageRange`.
use mathlib.Core.Path.{subst}
use coop_lumen_index.Base.{
  ℕ, zero, suc, ◌+◌, ◌-◌, ◌≤◌, ◌≡◌, inl, inr, List, [], ◌∷◌, ◌++◌, arith, ltb, Bool-cases,
}
use coop_lumen_index.Frontend.PageRange.{
  PageItem, page, ellipsis, pages_from, left_of, right_of, closing, after_first,
}

-- From a page that was shown, the items go on to the last page: by the next page, or by an ellipsis
-- that leaves out at least one.
pub data Walks : ℕ → List PageItem → ℕ → Type 0 where
  ends : {n : ℕ} → Walks n [] n
  steps :
      {n m : ℕ} {items : List PageItem} → Walks (n + 1) items m → Walks n (page (n + 1) ∷ items) m
  jumps :
      {n m k : ℕ} {items : List PageItem}
      → n + 2 ≤ k
      → Walks k items m
      → Walks n (ellipsis ∷ page k ∷ items) m

closing-Walks : (right total : ℕ) → right + 1 ≤ total → Walks right (closing right total) total
closing-Walks right total h = elim (Bool-cases (ltb right (total - 1))) [
  | inl t ↦ rw t (jumps (ground arith) ends)
  | inr f ↦ let last : total ≡ right + 1 = ground arith in rw (f, last) (steps ends)
]

pub pages_from-Walks :
    (count n p m : ℕ) (items : List PageItem)
    → p ≡ n + count
    → Walks p items m
    → Walks n (pages_from count (n + 1) ++ items) m
unfolding pages_from
pages_from-Walks zero n p m items e h =
    let same : p ≡ n = omega (arith, e) in subst (λ x. Walks x items m) same h
pages_from-Walks (suc count) n p m items e h =
    steps (pages_from-Walks count (n + 1) p m items (omega (arith, e)) h)

-- The loop's pages after an ellipsis, if there is a page.
after_gap-Walks :
    (count n left p m : ℕ) (items : List PageItem)
    → n + 2 ≤ left
    → p + 1 ≡ left + suc count
    → Walks p items m
    → Walks n (ellipsis ∷ pages_from (suc count) left ++ items) m
unfolding pages_from
after_gap-Walks count n left p m items g e h =
    jumps g (pages_from-Walks count left p m items (omega (arith, e)) h)

-- The loop has no page, and only the last page follows the ellipsis.
last_gap-Walks :
    (left right total : ℕ)
    → 3 ≤ total
    → total ≡ right + 1
    → Walks 1 (ellipsis ∷ pages_from 0 left ++ closing right total) total
unfolding pages_from
last_gap-Walks left right total h e = elim (Bool-cases (ltb right (total - 1))) [
  | inl t ↦ absurd (ground arith)
  | inr f ↦ rw f (jumps (omega (arith, h)) ends)
]

pub after_first-Walks :
    (current total siblings : ℕ)
    → 1 ≤ current
    → current ≤ total
    → 2 ≤ total
    → Walks 1 (after_first (left_of current siblings) (right_of current total siblings) total) total
unfolding after_first
after_first-Walks current total siblings a b c =
    let left = left_of current siblings in
    let right = right_of current total siblings in
    let end = closing-Walks right total (ground arith) in
    elim (Bool-cases (ltb 2 left)) [
      | inr near ↦
          let own : 2 ≡ left = ground arith in
          rw near (
            subst (λ l. Walks 1 (pages_from (right + 1 - l) l ++ closing right total) total) own
              (pages_from-Walks (right + 1 - 2) 1 right total (closing right total) (ground arith)
                end))
      | inl far ↦ elim (Bool-cases (ltb right left)) [
        | inl none_left ↦
            let no_pages : 0 ≡ right + 1 - left = ground arith in
            let at_end : total ≡ right + 1 = ground arith in
            rw far (
              subst (λ n. Walks 1 (ellipsis ∷ pages_from n left ++ closing right total) total)
                no_pages (last_gap-Walks left right total (ground arith) at_end))
        | inr some_left ↦
            let some_pages : suc (right - left) ≡ right + 1 - left = ground arith in
            rw far (
              subst (λ n. Walks 1 (ellipsis ∷ pages_from n left ++ closing right total) total)
                some_pages
                (after_gap-Walks (right - left) 1 left right total (closing right total)
                  (ground arith) (ground arith) end))
      ]
    ]
