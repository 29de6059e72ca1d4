-- ===== src/Migrate/Runner.antt =====
-- The statements of the runner and its two commands that write.
use coop_lumen_index.Base.{
  ℕ, Bool, true, false, not, Option, none, some, List, [], ◌∷◌, ◌++◌, ◌==◌, if◌then◌else◌, inl, inr,
  take,
}
use mathlib.Core.List.{reverse}
use coop_lumen_index.Migrate.{
  Row, Database, Platform, Failure, bootstrap_missing, file_missing, sql_failed, table_missing,
  changed_on_disk,
}
use coop_lumen_index.Migrate.Files.{
  filter, mem, names_of, sort, list_migration_files, find_drifted_migrations,
}

-- INSERT … ON CONFLICT (name) DO NOTHING
abbrev pub insert_if_absent : ℕ → List Row → List Row
insert_if_absent n rows =
    if mem n (names_of rows) then rows else rows ++ record { name = n; checksum = none } ∷ []

-- UPDATE … SET checksum = $1 WHERE name = $2 AND checksum IS NULL
abbrev pub fill_checksum : ℕ → ℕ → List Row → List Row
fill_checksum sum n [] = []
fill_checksum sum n (row ∷ rows) =
    elim row.checksum [
      | none ↦ if row.name == n then record row { checksum = some sum } else row
      | some _ ↦ row
    ]
    ∷ fill_checksum sum n rows

-- DELETE FROM schema_migrations WHERE name = $1
abbrev pub without : ℕ → List Row → List Row
without n = filter (λ (row : Row). not (row.name == n))

module _ (P : Platform) where
  open P use {Schema, bootstrap, disk, execute, is_empty, checksum_of, down}

  abbrev pub Db : Type 0
  Db = Database Schema

  -- What a command leaves behind: the exception it ends with, if any, and the database.
  abbrev pub Outcome : Type 0
  Outcome = Option Failure × Db

  -- A statement on schema_migrations; it fails without the table.
  unfoldable pub on_table : (List Row → Option (List Row)) → Db → Option Db
  on_table f db = elim db.table [
    | none ↦ none
    | some rows ↦ elim (f rows) [
      | none ↦ none
      | some rows' ↦ some (record db { table = some rows' })
    ]
  ]

  -- BEGIN … COMMIT, with ROLLBACK on an error.
  abbrev pub in_transaction : Option Db → Db → Outcome
  in_transaction none db = (some sql_failed, db)
  in_transaction (some db') db = (none, db')

  abbrev pub both_then : Option Db → (Db → Option Db) → Option Db
  both_then none f = none
  both_then (some db) f = f db

  abbrev pub continue_with : Outcome → (Db → Outcome) → Outcome
  continue_with (some failure, db) f = (some failure, db)
  continue_with (none, db) f = f db

  unfoldable pub record_bootstrap : ℕ → List Row → List Row
  record_bootstrap sql rows =
      let present = insert_if_absent bootstrap rows in
      if is_empty sql then present else fill_checksum (checksum_of sql) bootstrap present

  unfoldable pub ensure_schema_migrations_table : Db → Outcome
  ensure_schema_migrations_table db = elim (disk bootstrap) [
    | none ↦ (some bootstrap_missing, db)
    | some sql ↦
        in_transaction
          (both_then (execute sql db) (on_table λ rows. some (record_bootstrap sql rows))) db
  ]

  -- INSERT INTO schema_migrations; the name is the primary key.
  abbrev pub insert_row : Row → List Row → Option (List Row)
  insert_row row rows = if mem row.name (names_of rows) then none else some (rows ++ row ∷ [])

  unfoldable pub apply_migration : ℕ → Db → Outcome
  apply_migration name db = elim (disk name) [
    | none ↦ (some file_missing, db)
    | some sql ↦
        in_transaction
          (both_then (execute sql db)
            (on_table (insert_row (record { name = name; checksum = some (checksum_of sql) }))))
          db
  ]

  unfoldable pub apply_all : List ℕ → Db → Outcome
  apply_all [] db = (none, db)
  apply_all (name ∷ names) db = continue_with (apply_migration name db) (apply_all names)

  abbrev pub pending_of : List Row → List ℕ → List ℕ
  pending_of applied = filter λ name. not (mem name (names_of applied))

  abbrev pub apply_pending : Bool → List ℕ → Db → Outcome
  apply_pending true pending db = (none, db)
  apply_pending false pending db = apply_all pending db

  -- `runPending` once the tracking table is there and holds these rows.
  unfoldable pub run_with : Bool → List Row → Db → Outcome
  run_with dry_run applied db = elim (find_drifted_migrations P applied) [
    | x ∷ xs ↦ (some (changed_on_disk (x ∷ xs)), db)
    | [] ↦ elim (list_migration_files P) [
      | inl failure ↦ (some failure, db)
      | inr files ↦ apply_pending dry_run (pending_of applied files) db
    ]
  ]

  -- SELECT name, checksum FROM schema_migrations
  unfoldable pub get_applied_migrations : (List Row → Db → Outcome) → Db → Outcome
  get_applied_migrations f db = elim db.table [
    | none ↦ (some table_missing, db)
    | some rows ↦ f rows db
  ]

  unfoldable pub run_pending : Bool → Db → Outcome
  unfolding ensure_schema_migrations_table get_applied_migrations run_with
  run_pending dry_run db =
      continue_with (ensure_schema_migrations_table db) (get_applied_migrations (run_with dry_run))

  -- One round of the loop of `rollback`; without a down file the migration stays.
  unfoldable pub roll_back_one : ℕ → Db → Outcome
  roll_back_one name db = elim (disk (down name)) [
    | none ↦ (none, db)
    | some sql ↦
        in_transaction (both_then (on_table (λ rows. some (without name rows)) db) (execute sql)) db
  ]

  unfoldable pub roll_back_all : List ℕ → Db → Outcome
  roll_back_all [] db = (none, db)
  roll_back_all (name ∷ names) db = continue_with (roll_back_one name db) (roll_back_all names)

  -- `[...applied.keys()].sort(compareMigrations).reverse().slice(0, steps)`
  unfoldable pub to_roll_back : ℕ → List Row → List ℕ
  to_roll_back steps applied = take steps (reverse (sort P (names_of applied)))

  abbrev pub roll_back_steps : ℕ → Bool → List Row → Db → Outcome
  roll_back_steps steps true applied db = (none, db)
  roll_back_steps steps false applied db = roll_back_all (to_roll_back steps applied) db

  unfoldable pub rollback : ℕ → Bool → Db → Outcome
  unfolding ensure_schema_migrations_table get_applied_migrations
  rollback steps dry_run db =
      continue_with (ensure_schema_migrations_table db)
        (get_applied_migrations (roll_back_steps steps dry_run))
