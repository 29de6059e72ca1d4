-- ===== src/Migrate/Newest.antt =====
-- Which migrations `rollback` chooses.
use mathlib.Core.List.{reverse, reverse-cons}
use coop_lumen_index.Base.{
  ℕ, ◌≡◌, refl, sym, ap, ◌∙◌, true, false, ◌||◌, List, [], ◌∷◌, ◌++◌, arith, ◌==◌, inl, inr,
  Bool-cases, all, take, zero, suc,
}
use coop_lumen_index.Migrate.{Row, Platform}
use coop_lumen_index.Migrate.Files.{mem, names_of, comes_first, sort}
use coop_lumen_index.Migrate.Order.{
  all_at, all-mem, mem-sort, Sorted, sorted_nil, sorted_cons, IsTotal, sort-Sorted,
}
use coop_lumen_index.Migrate.Runner.{to_roll_back}

module _ (P : Platform) where
  -- A list in the opposite order: everything that follows comes first.
  abbrev Descending : List ℕ → Type 0
  Descending [] = Unit
  Descending (x ∷ xs) = (all (λ y. comes_first P y x) xs ≡ true) × Descending xs

  mem-snoc : (n x : ℕ) (xs : List ℕ) → mem n (xs ++ x ∷ []) ≡ ((x == n) || mem n xs)
  mem-snoc n x [] = refl
  mem-snoc n x (y ∷ ys) = ground (arith, mem-snoc n x ys)

  snoc-Descending :
      (xs : List ℕ) (x : ℕ)
      → Descending xs
      → all (λ y. comes_first P x y) xs ≡ true
      → Descending (xs ++ x ∷ [])
  snoc-Descending [] x d h = (refl, tt)
  snoc-Descending (y ∷ ys) x (le, d) h = (
    all-mem _ (ys ++ x ∷ []) (λ n m. elim (Bool-cases (x == n)) [
      | inl e ↦ let same : x ≡ n = ground arith in ground arith
      | inr o ↦ all_at _ ys n le (ground (arith, mem-snoc n x ys))
    ]),
    snoc-Descending ys x d (ground arith),
  )

  mem-take : (n steps : ℕ) (xs : List ℕ) → mem n (take steps xs) ≡ true → mem n xs ≡ true
  mem-take n zero xs h = ground arith
  mem-take n (suc s) [] h = ground arith
  mem-take n (suc s) (x ∷ xs) h = elim (Bool-cases (x == n)) [
    | inl e ↦ ground arith
    | inr d ↦ let rest = mem-take n s xs (ground arith) in ground arith
  ]

  chosen_first :
      (steps m n : ℕ) (xs : List ℕ)
      → Descending xs
      → mem n (take steps xs) ≡ true
      → mem m xs ≡ true
      → mem m (take steps xs) ≡ false
      → comes_first P m n ≡ true
  chosen_first zero m n xs d h k o = ground arith
  chosen_first (suc s) m n [] d h k o = ground arith
  chosen_first (suc s) m n (x ∷ xs) (le, d) h k o = elim (Bool-cases (x == n)) [
    | inl e ↦
        let same : x ≡ n = ground arith in let le' = all_at _ xs m le (ground arith) in ground arith
    | inr e ↦ chosen_first s m n xs d (ground arith) (ground arith) (ground arith)
  ]

  mem-reverse : (n : ℕ) (xs : List ℕ) → mem n (reverse xs) ≡ mem n xs
  mem-reverse n [] = refl
  mem-reverse n (x ∷ xs) =
      ap (mem n) (reverse-cons x xs)
      ∙ mem-snoc n x (reverse xs)
      ∙ ap (λ b. (x == n) || b) (mem-reverse n xs)

  reverse-Descending : (xs : List ℕ) → Sorted P xs → Descending (reverse xs)
  reverse-Descending [] sorted_nil = tt
  reverse-Descending (x ∷ xs) (sorted_cons _ _ le s) = rw (reverse-cons x xs) (
      snoc-Descending (reverse xs) x (reverse-Descending xs s)
        (all-mem _ (reverse xs) λ n m. all_at _ xs n le (sym (mem-reverse n xs) ∙ m)))

  -- A rollback chooses the newest migrations: where names have a total order, every applied
  -- migration that is not chosen comes before each that is, and those chosen are applied ones.
  pub to_roll_back_newest :
      (law : IsTotal P) (steps m n : ℕ) (rows : List Row)
      → mem n (to_roll_back P steps rows) ≡ true
      → mem m (names_of rows) ≡ true
      → mem m (to_roll_back P steps rows) ≡ false
      → (comes_first P m n ≡ true) × (mem n (names_of rows) ≡ true)
  unfolding to_roll_back
  to_roll_back_newest law steps m n rows chosen applied not_chosen =
      let names = names_of rows in
      let sorted = reverse-Descending (sort P names) (sort-Sorted P law names) in
      let there : (k : ℕ) → mem k (reverse (sort P names)) ≡ mem k names =
        λ k. mem-reverse k (sort P names) ∙ mem-sort P k names in
      (
        chosen_first steps m n (reverse (sort P names)) sorted chosen (there m ∙ applied)
            not_chosen,
        sym (there n) ∙ mem-take n steps (reverse (sort P names)) chosen,
      )

  pub mem-chosen_from :
      (n : ℕ) (rows : List Row) → mem n (reverse (sort P (names_of rows))) ≡ mem n (names_of rows)
  mem-chosen_from n rows = mem-reverse n (sort P (names_of rows)) ∙ mem-sort P n (names_of rows)

  pub to_roll_back_applied :
      (steps n : ℕ) (rows : List Row)
      → mem n (to_roll_back P steps rows) ≡ true
      → mem n (names_of rows) ≡ true
  unfolding to_roll_back
  to_roll_back_applied steps n rows h =
      sym (mem-chosen_from n rows) ∙ mem-take n steps (reverse (sort P (names_of rows))) h
