-- ===== src/Frontend/Examples.antt =====
-- The theorems about pages at concrete numbers.
use coop_lumen_index.Base.{
  ◌≡◌, refl, true, none, some, List, [], ◌∷◌, arith, if◌then◌else◌, ◌==◌, any,
}
use coop_lumen_index.Frontend.PageRange.{
  PageItem, page, ellipsis, build_page_range, after_first, pages_from,
}
use coop_lumen_index.Frontend.PageRange.Order.{Walks}
use coop_lumen_index.Frontend.PageRange.Shown.{is_page, build_page_range-Walks}
use coop_lumen_index.Frontend.UrlPage.{Numerals, ReadsBack}

build_page_range-Walks_example :
    (rest : List PageItem) × (build_page_range 5 9 7 ≡ page 1 ∷ rest)
    × Walks 1 rest 9
    × (any (is_page 5) (build_page_range 5 9 7) ≡ true)
build_page_range-Walks_example =
    build_page_range-Walks 5 9 7 (omega arith) (omega arith) (omega arith)

-- 1 … 4 5 6 … 9
five_of_nine :
    build_page_range 5 9 7 ≡ page 1 ∷ ellipsis ∷ page 4 ∷ page 5 ∷ page 6 ∷ ellipsis ∷ page 9 ∷ []
unfolding build_page_range after_first pages_from
five_of_nine = refl

abbrev numerals : Numerals
numerals = record { number = λ n. if n == 0 then none else some n; show = λ n. n }

numerals-ReadsBack : ReadsBack numerals
numerals-ReadsBack = record {
  number-show = λ n h. ground arith;
  from_one = λ value n h. ground arith;
}
