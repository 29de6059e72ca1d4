-- ===== src/Migrate/Order.antt =====
-- The order of migrations, and what sorting by it does.
use coop_lumen_index.Base.{
  ℕ, ◌≡◌, refl, sym, ap, ◌∙◌, Bool, true, ◌||◌, List, [], ◌∷◌, arith, ◌==◌, inl, inr, Bool-cases,
  all,
}
use coop_lumen_index.Migrate.{Platform}
use coop_lumen_index.Migrate.Files.{
  mem, comes_first, insert, sort, migration_names, list_migration_files,
}

pub all-mem :
    (p : ℕ → Bool) (xs : List ℕ) → ((n : ℕ) → mem n xs ≡ true → p n ≡ true) → all p xs ≡ true
all-mem p [] h = refl
all-mem p (x ∷ xs) h =
    let here = h x (ground arith) in
    let rest = all-mem p xs (λ n m. h n (ground arith)) in ground arith

pub all_at : (p : ℕ → Bool) (xs : List ℕ) (n : ℕ) → all p xs ≡ true → mem n xs ≡ true → p n ≡ true
all_at p [] n h m = ground arith
all_at p (x ∷ xs) n h m = elim (Bool-cases (x == n)) [
  | inl e ↦ let same : x ≡ n = ground arith in ground arith
  | inr d ↦ all_at p xs n (ground arith) (ground arith)
]

-- A list in order.
pub data Sorted (P : Platform) : List ℕ → Type 0 where
  sorted_nil : Sorted P []
  sorted_cons :
      (x : ℕ) (xs : List ℕ) → all (comes_first P x) xs ≡ true → Sorted P xs → Sorted P (x ∷ xs)

module _ (P : Platform) where
  open P use {version, locale_leb}

  mem-insert : (n x : ℕ) (xs : List ℕ) → mem n (insert P x xs) ≡ ((x == n) || mem n xs)
  mem-insert n x [] = refl
  mem-insert n x (y ∷ ys) = ground (arith, mem-insert n x ys)

  pub mem-sort : (n : ℕ) (xs : List ℕ) → mem n (sort P xs) ≡ mem n xs
  unfolding sort
  mem-sort n [] = refl
  mem-sort n (x ∷ xs) = mem-insert n x (sort P xs) ∙ ap (λ b. (x == n) || b) (mem-sort n xs)

  pub mem-files :
      (files : List ℕ) (n : ℕ)
      → list_migration_files P ≡ inr files
      → mem n files ≡ mem n (migration_names P)
  unfolding list_migration_files
  mem-files files n e =
      let same : sort P (migration_names P) ≡ files = ground arith in
      rw (sym same) (mem-sort n (migration_names P))

  -- `localeCompare` is a total order on names.
  pub record IsTotal : Type 0 where
    pub total : (x y : ℕ) → (locale_leb x y || locale_leb y x) ≡ true
    pub trans : (x y z : ℕ) → locale_leb x y ≡ true → locale_leb y z ≡ true → locale_leb x z ≡ true

  module _ (law : IsTotal) where
    comes_first_total : (x y : ℕ) → (comes_first P x y || comes_first P y x) ≡ true
    unfolding comes_first
    comes_first_total x y = let t = law.total x y in ground arith

    pub comes_first_trans :
        (x y z : ℕ) → comes_first P x y ≡ true → comes_first P y z ≡ true → comes_first P x z ≡ true
    unfolding comes_first
    comes_first_trans x y z h k = let t = law.trans x y z in ground arith

    all-insert :
        (p : ℕ → Bool) (x : ℕ) (xs : List ℕ)
        → p x ≡ true
        → all p xs ≡ true
        → all p (insert P x xs) ≡ true
    all-insert p x [] h k = ground arith
    all-insert p x (y ∷ ys) h k = let rest = all-insert p x ys h (ground arith) in ground arith

    insert-Sorted : (x : ℕ) (xs : List ℕ) → Sorted P xs → Sorted P (insert P x xs)
    insert-Sorted x [] sorted_nil = sorted_cons x [] refl sorted_nil
    insert-Sorted x (y ∷ ys) (sorted_cons _ _ le s) = elim (Bool-cases (comes_first P x y)) [
      | inl e ↦
          let above =
            all-mem (comes_first P x) ys
              (λ n m. comes_first_trans x y n e (all_at (comes_first P y) ys n le m)) in
          rw e (sorted_cons x (y ∷ ys) (ground arith) (sorted_cons y ys le s))
      | inr d ↦
          let other : comes_first P y x ≡ true = let t = comes_first_total x y in ground arith in
          rw d (sorted_cons y _ (all-insert (comes_first P y) x ys other le) (insert-Sorted x ys s))
    ]

    pub sort-Sorted : (xs : List ℕ) → Sorted P (sort P xs)
    unfolding sort
    sort-Sorted [] = sorted_nil
    sort-Sorted (x ∷ xs) = insert-Sorted x (sort P xs) (sort-Sorted xs)
