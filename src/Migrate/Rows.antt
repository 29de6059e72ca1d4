-- ===== src/Migrate/Rows.antt =====
-- Lemmas on the rows of schema_migrations.
use coop_lumen_index.Base.{
  ℕ, ◌≡◌, refl, Bool, true, false, not, ◌&&◌, ◌||◌, none, List, [], ◌∷◌, ◌++◌, arith, ◌==◌,
  if◌then◌else◌, inl, inr, Bool-cases,
}
use coop_lumen_index.Migrate.{Row, Platform}
use coop_lumen_index.Migrate.Files.{filter, mem, names_of, is_some}
use coop_lumen_index.Migrate.Runner.{insert_if_absent, fill_checksum, pending_of}

pub filter-append {ℓ} :
    {A : Type ℓ} (p : A → Bool) (xs ys : List A) → filter p (xs ++ ys) ≡ filter p xs ++ filter p ys
filter-append p [] ys = refl
filter-append p (x ∷ xs) ys = ground (arith, filter-append p xs ys)

pub mem-append :
    (n : ℕ) (xs ys : List Row)
    → mem n (names_of (xs ++ ys)) ≡ (mem n (names_of xs) || mem n (names_of ys))
mem-append n [] ys = refl
mem-append n (x ∷ xs) ys = ground (arith, mem-append n xs ys)

-- A row of this name has its checksum.
abbrev pub filled : ℕ → List Row → Bool
filled n [] = true
filled n (row ∷ rows) =
    if (row.name == n) && not (is_some row.checksum) then false else filled n rows

pub filled-append :
    (n : ℕ) (xs ys : List Row)
    → filled n xs ≡ true
    → filled n ys ≡ true
    → filled n (xs ++ ys) ≡ true
filled-append n [] ys h k = k
filled-append n (x ∷ xs) ys h k = let rest = filled-append n xs ys (ground arith) k in ground arith

pub fill_checksum_again :
    (sum n : ℕ) (rows : List Row) → filled n rows ≡ true → fill_checksum sum n rows ≡ rows
fill_checksum_again sum n [] h = refl
fill_checksum_again sum n (row ∷ rows) h =
    let rest = fill_checksum_again sum n rows (ground arith) in ground arith

pub filled-fill_checksum :
    (sum n : ℕ) (rows : List Row) → filled n (fill_checksum sum n rows) ≡ true
filled-fill_checksum sum n [] = refl
filled-fill_checksum sum n (row ∷ rows) = ground (arith, filled-fill_checksum sum n rows)

pub names_of-fill_checksum :
    (sum n : ℕ) (rows : List Row) → names_of (fill_checksum sum n rows) ≡ names_of rows
names_of-fill_checksum sum n [] = refl
names_of-fill_checksum sum n (row ∷ rows) = ground (arith, names_of-fill_checksum sum n rows)

pub mem-insert_if_absent :
    (n : ℕ) (rows : List Row) → mem n (names_of (insert_if_absent n rows)) ≡ true
mem-insert_if_absent n rows =
    ground (arith, mem-append n rows (record { name = n; checksum = none } ∷ []))

pub filter_none :
    (p : ℕ → Bool) (xs : List ℕ) → ((n : ℕ) → mem n xs ≡ true → p n ≡ false) → filter p xs ≡ []
filter_none p [] h = refl
filter_none p (x ∷ xs) h =
    let here = h x (ground arith) in
    let rest = filter_none p xs (λ n m. h n (ground arith)) in ground arith

pub mem-pending :
    (P : Platform) (n : ℕ) (rows : List Row) (names : List ℕ)
    → mem n names ≡ true
    → (mem n (names_of rows) || mem n (pending_of P rows names)) ≡ true
mem-pending P n rows [] h = ground arith
mem-pending P n rows (x ∷ xs) h = elim (Bool-cases (x == n)) [
  | inl e ↦ let same : x ≡ n = ground arith in rw same (ground arith)
  | inr d ↦ let rest = mem-pending P n rows xs (ground arith) in ground arith
]
