-- ===== src/Listings/Pages.antt =====
-- backend/src/api/routes: what the pages of a listing hold together.
use native.Mathlib.Decide.{dec_lt}
use native.Mathlib.Nat.{suc-mul}
use coop_lumen_index.Base.{
  ℕ, zero, suc, ◌+◌, ◌-◌, ◌*◌, ◌≤◌, ◌<◌, ◌≡◌, sym, ap, ◌∙◌, Bool, List, [], ◌++◌, length, take,
  drop, filter, arith, take_add, take_of_length-le,
}
use coop_lumen_index.Http.Pages.{PageParams, page_meta, page_meta_pages}
use coop_lumen_index.Listings.{rows_of_page, listing}

-- The parameters of a page, as `parsePagination` makes them.
abbrev pub nth_page : ℕ → ℕ → PageParams
nth_page limit page = record { page = page; limit = limit; offset = (page - 1) * limit }

-- The rows of the pages from 1 to a number, one after the other.
abbrev pub first_pages : {A : Type 0} → (ℕ → List A) → ℕ → List A
first_pages rows zero = []
first_pages rows (suc n) = first_pages rows n ++ rows (suc n)

past_total : (total below pages : ℕ) → (below < total → pages + 1 ≤ pages) → total ≤ below
past_total total below pages h = elim (dec_lt below total) [
  | yes lt ↦ absurd (omega (arith, h lt))
  | no le ↦ omega arith
]

module _ {A : Type 0} where
  first_pages-take :
      (xs : List A) (limit n : ℕ)
      → first_pages (λ page. rows_of_page (nth_page limit page) xs) n ≡ take (n * limit) xs
  unfolding rows_of_page
  first_pages-take xs limit zero = let none_yet : 0 * limit ≡ 0 = omega arith in rw none_yet
  first_pages-take xs limit (suc n) =
      let before : (suc n - 1) * limit ≡ n * limit = ap (λ k. k * limit) (omega arith) in
      let after : suc n * limit ≡ n * limit + limit = suc-mul n limit in
      rw (before, after)
        (ap (λ ys. ys ++ take limit (drop (n * limit) xs)) (first_pages-take xs limit n)
          ∙ sym (take_add (n * limit) limit xs))

  -- The pages that the answers count show, one after the other, every row that is kept, in order.
  pub listing_pages :
      (keeps : A → Bool) (arrange : List A → List A) (rows : List A) (limit page : ℕ)
      → 0 < limit
      → ((xs : List A) → length (arrange xs) ≡ length xs)
      → first_pages
          (λ n. (listing keeps arrange (nth_page limit n) rows).data_rows)
          (listing keeps arrange (nth_page limit page) rows).meta.pages
        ≡ arrange (filter keeps rows)
  unfolding listing
  listing_pages keeps arrange rows limit page h law =
      let xs = arrange (filter keeps rows) in
      let total = length (filter keeps rows) in
      let pages = (page_meta total (nth_page limit page)).pages in
      let bound = (page_meta_pages total pages (nth_page limit page) h).0 in
      let enough = past_total total (pages * limit) pages bound in
      first_pages-take xs limit pages
      ∙ take_of_length-le (pages * limit) xs (omega (arith, law (filter keeps rows)))
