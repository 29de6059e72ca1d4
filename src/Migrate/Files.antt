-- ===== src/Migrate/Files.antt =====
-- `compareMigrations`, `listMigrationFiles` and `findDriftedMigrations`.
use coop_lumen_index.Base.{
  ℕ, Bool, true, false, not, ◌&&◌, ◌||◌, Option, none, some, List, [], ◌∷◌, ltb, ◌==◌,
  if◌then◌else◌, ◌^◌, ◌-◌, map, ◌⊎◌, inl, inr,
}
use coop_lumen_index.Migrate.{Row, Entry, Platform, Failure, invalid_names}

abbrev pub filter {ℓ} : {A : Type ℓ} → (A → Bool) → List A → List A
filter p [] = []
filter p (x ∷ xs) = if p x then x ∷ filter p xs else filter p xs

-- `array.includes`, and `has` of a Map by its keys.
abbrev pub mem : ℕ → List ℕ → Bool
mem x [] = false
mem x (y ∷ ys) = (y == x) || mem x ys

abbrev pub names_of : List Row → List ℕ
names_of = map (λ (r : Row). r.name)

abbrev pub is_some {ℓ} : {A : Type ℓ} → Option A → Bool
is_some none = false
is_some (some _) = true

module _ (P : Platform) where
  open P use {entries, disk, checksum_of, version, locale_leb}

  -- Number.MAX_SAFE_INTEGER stands for a name without a number.
  abbrev pub version_of : ℕ → ℕ
  version_of name = elim (version name) [ none ↦ 2 ^ 53 - 1 | some v ↦ v ]

  -- `compareMigrations(left, right) <= 0`
  unfoldable pub comes_first : ℕ → ℕ → Bool
  comes_first left right =
      ltb (version_of left) (version_of right)
      || (version_of left == version_of right && locale_leb left right)

  abbrev pub insert : ℕ → List ℕ → List ℕ
  insert x [] = x ∷ []
  insert x (y ∷ ys) = if comes_first x y then x ∷ y ∷ ys else y ∷ insert x ys

  -- `names.sort(compareMigrations)`
  unfoldable pub sort : List ℕ → List ℕ
  sort [] = []
  sort (x ∷ xs) = insert x (sort xs)

  abbrev pub is_migration : Entry → Bool
  is_migration entry = entry.is_file && entry.ends_sql && not entry.ends_down

  abbrev pub migration_names : List ℕ
  migration_names = map (λ (e : Entry). e.name) (filter is_migration entries)

  -- The names that do not match the pattern, or the others sorted.
  unfoldable pub list_migration_files : Failure ⊎ List ℕ
  unfolding sort
  list_migration_files = elim (filter (λ name. not (is_some (version name))) migration_names) [
    | [] ↦ inr (sort migration_names)
    | x ∷ xs ↦ inl (invalid_names (x ∷ xs))
  ]

  -- Whether the file of an applied migration differs from what was recorded; rows without a
  -- checksum and missing files are passed over.
  abbrev pub is_drifted : Row → Bool
  is_drifted row = elim row.checksum [
    | none ↦ false
    | some recorded ↦ elim (disk row.name) [
      | none ↦ false
      | some sql ↦ not (checksum_of sql == recorded)
    ]
  ]

  unfoldable pub find_drifted_migrations : List Row → List ℕ
  find_drifted_migrations applied = names_of (filter is_drifted applied)
