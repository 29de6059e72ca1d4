-- ===== src/Migrate/Command.antt =====
-- `parseArgs`, `showStatus` and `migrate`.
use coop_lumen_index.Base.{
  ℕ, ◌≤◌, ◌≡◌, refl, Bool, true, false, ◌||◌, Option, none, some, List, [], ◌∷◌, arith,
  if◌then◌else◌, ltb, ℤ, pos, negsuc, any, inl, inr, Bool-cases, Option-cases, ◌⊎◌,
}
use coop_lumen_index.Migrate.{Row, Platform}
use coop_lumen_index.Migrate.Files.{list_migration_files}
use coop_lumen_index.Migrate.Runner.{
  Db, Outcome, continue_with, ensure_schema_migrations_table, get_applied_migrations, run_with,
  run_pending, roll_back_steps, rollback,
}

-- An argument of the command line: one of the three flags, or a text with what
-- `Number.parseInt(…, 10)` makes of it (none is NaN).
pub data Arg : Type 0 where
  dry_run_flag status_flag rollback_flag : Arg
  text : Option ℤ → Arg

pub data Command : Type 0 where
  up status rollback_by : Command

pub record CliOptions : Type 0 where
  pub command : Command
  pub steps : ℕ
  pub dry_run : Bool

abbrev pub is_dry_run : Arg → Bool
is_dry_run dry_run_flag = true
is_dry_run _ = false

abbrev pub is_status : Arg → Bool
is_status status_flag = true
is_status _ = false

-- `Number.parseInt(argv[rollbackIndex + 1] ?? '1', 10)`; a flag is not a number.
abbrev pub parsed_steps : List Arg → Option ℤ
parsed_steps [] = some (pos 1)
parsed_steps (text n ∷ _) = n
parsed_steps (_ ∷ _) = none

-- `Number.isNaN(parsed) || parsed < 1 ? 1 : parsed`
abbrev pub steps_of : Option ℤ → ℕ
steps_of none = 1
steps_of (some (negsuc _)) = 1
steps_of (some (pos n)) = if ltb n 1 then 1 else n

-- What follows the first `--rollback`, if there is one.
abbrev pub after_rollback : List Arg → Option (List Arg)
after_rollback [] = none
after_rollback (rollback_flag ∷ argv) = some argv
after_rollback (_ ∷ argv) = after_rollback argv

unfoldable pub parse_args : List Arg → CliOptions
parse_args argv =
    let dry = any is_dry_run argv in
    if any is_status argv
    then record { command = status; steps = 0; dry_run = dry }
    else elim (after_rollback argv) [
      | some rest ↦ record {
        command = rollback_by;
        steps = steps_of (parsed_steps rest);
        dry_run = dry;
      }
      | none ↦ record { command = up; steps = 0; dry_run = dry }
    ]

asks_dry :
    (argv : List Arg)
    → (any is_dry_run argv || any is_status argv) ≡ true
    → ((parse_args argv).dry_run ≡ true) ⊎ ((parse_args argv).command ≡ status)
unfolding parse_args
asks_dry argv h = elim (Bool-cases (any is_status argv)) [
  | inl e ↦ inr (ground arith)
  | inr d ↦ inl (ground arith)
]

-- A command that asks for a rollback takes at least one step.
pub parse_args_steps :
    (argv : List Arg) → (parse_args argv).command ≡ rollback_by → 1 ≤ (parse_args argv).steps
unfolding parse_args
parse_args_steps argv h = ground arith

module _ (P : Platform) where
  -- `showStatus`, less what it prints.
  unfoldable pub show_rows : List Row → Db P → Outcome P
  show_rows rows db = elim (list_migration_files P) [
    | inl failure ↦ (some failure, db)
    | inr _ ↦ (none, db)
  ]

  unfoldable pub show_status : Db P → Outcome P
  show_status db =
      continue_with P (ensure_schema_migrations_table P db) (get_applied_migrations P show_rows)

  unfoldable pub run_command : CliOptions → Db P → Outcome P
  run_command options db = elim options.command [
    | status ↦ show_status db
    | rollback_by ↦ rollback P options.steps options.dry_run db
    | up ↦ run_pending P options.dry_run db
  ]

  -- `migrate`, under its advisory lock.
  unfoldable pub migrate : List Arg → Db P → Outcome P
  unfolding run_command parse_args
  migrate argv db = run_command (parse_args argv) db

  after_ensure :
      (o : Outcome P) (f : List Row → Db P → Outcome P)
      → ((rows : List Row) (db : Db P) → (f rows db).1 ≡ db)
      → (continue_with P o (get_applied_migrations P f)).1 ≡ o.1
  unfolding get_applied_migrations
  after_ensure (some failure, db) f h = refl
  after_ensure (none, db) f h = elim (Option-cases db.table) [
    | inl missing ↦ ground arith
    | inr (rows, t) ↦ let same = h rows db in ground arith
  ]

  run_with_dry : (rows : List Row) (db : Db P) → (run_with P true rows db).1 ≡ db
  unfolding run_with
  run_with_dry rows db = ground arith

  show_rows_dry : (rows : List Row) (db : Db P) → (show_rows rows db).1 ≡ db
  unfolding show_rows
  show_rows_dry rows db = ground arith

  roll_back_dry :
      (steps : ℕ) (rows : List Row) (db : Db P) → (roll_back_steps P steps true rows db).1 ≡ db
  roll_back_dry steps rows db = refl

  run_command_dry :
      (c : Command) (steps : ℕ) (dry : Bool) (db : Db P)
      → (dry ≡ true) ⊎ (c ≡ status)
      → (run_command (record { command = c; steps = steps; dry_run = dry }) db).1
        ≡ (ensure_schema_migrations_table P db).1
  unfolding run_command show_status run_pending rollback
  run_command_dry status steps dry db h =
      after_ensure (ensure_schema_migrations_table P db) show_rows show_rows_dry
  run_command_dry up steps true db h =
      after_ensure (ensure_schema_migrations_table P db) (run_with P true) run_with_dry
  run_command_dry rollback_by steps true db h =
      after_ensure (ensure_schema_migrations_table P db) (roll_back_steps P steps true)
        (roll_back_dry steps)
  run_command_dry up steps false db h = absurd (ground arith)
  run_command_dry rollback_by steps false db h = absurd (ground arith)

  -- With --dry-run or --status among the arguments the runner creates its tracking table if that
  -- is missing, and changes nothing else.
  pub migrate_dry :
      (argv : List Arg) (db : Db P)
      → (any is_dry_run argv || any is_status argv) ≡ true
      → (migrate argv db).1 ≡ (ensure_schema_migrations_table P db).1
  unfolding migrate
  migrate_dry argv db h =
      let o = parse_args argv in run_command_dry o.command o.steps o.dry_run db (asks_dry argv h)
