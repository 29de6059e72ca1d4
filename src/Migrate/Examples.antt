-- ===== src/Migrate/Examples.antt =====
-- The theorems about the runner at a small directory of migrations.
use coop_lumen_index.Base.{
  ℕ, ◌+◌, ◌≡◌, refl, Bool, true, false, Option, none, some, List, [], ◌∷◌, arith, ◌==◌,
  if◌then◌else◌, leb, inr,
}
use coop_lumen_index.Migrate.{Row, Database, Entry, Platform}
use coop_lumen_index.Migrate.Files.{
  comes_first, sort, list_migration_files, find_drifted_migrations,
}
use coop_lumen_index.Migrate.Runner.{
  Db, on_table, record_bootstrap, ensure_schema_migrations_table, apply_migration, apply_all,
  get_applied_migrations, run_with, run_pending, to_roll_back,
}
use coop_lumen_index.Migrate.Up.{Respectful, Progress, run_pending-Progress}
use coop_lumen_index.Migrate.Again.{run_pending_again}

abbrev is_bootstrap_text : ℕ → Bool
is_bootstrap_text sql = sql == 1

abbrev created : Option (List Row) → List Row
created none = []
created (some rows) = rows

-- The schema is the list of the texts that ran.
abbrev execute : ℕ → Database (List ℕ) → Option (Database (List ℕ))
execute sql db =
    if is_bootstrap_text sql
    then some (record db { table = some (created db.table) })
    else some (record db { schema = sql ∷ db.schema })

abbrev disk : ℕ → Option ℕ
disk name =
    if name == 10
    then some 1
    else if name == 20
    then some 2
    else if name == 30
    then some 3
    else if name == 31
    then some 103
    else none

abbrev file : ℕ → Entry
file n = record { name = n; is_file = true; ends_sql = true; ends_down = false }

abbrev platform : Platform
platform = record {
  Schema = List ℕ;
  bootstrap = 10;
  entries = file 30 ∷ file 10 ∷ record (file 31) { ends_down = true } ∷ file 20 ∷ [];
  disk = disk;
  execute = execute;
  is_empty = λ sql. sql == 0;
  checksum_of = λ sql. sql + 1000;
  version = λ name. if name == 10 then some 1 else some 2;
  locale_leb = leb;
  down = λ name. name + 1;
}

abbrev fresh : Db platform
fresh = record { table = none; schema = [] }

abbrev ready : Db platform
ready = record { table = some (record { name = 10; checksum = some 1001 } ∷ []); schema = [] }

platform-Respectful : Respectful platform
platform-Respectful = record {
  creates = λ sql db db' found t ran. ground arith;
  again = λ sql db rows found t. ground arith;
  keeps = λ name sql db db' rows listed found t ran. ground arith;
}

files : list_migration_files platform ≡ inr (10 ∷ 20 ∷ 30 ∷ [])
unfolding list_migration_files sort comes_first
files = refl

abbrev two_more : List ℕ
two_more = 20 ∷ 30 ∷ []

ensured : ensure_schema_migrations_table platform fresh ≡ (none, ready)
unfolding ensure_schema_migrations_table on_table record_bootstrap
ensured = refl

clean : find_drifted_migrations platform (record { name = 10; checksum = some 1001 } ∷ []) ≡ []
unfolding find_drifted_migrations
clean = refl

succeeds : (run_pending platform false fresh).0 ≡ none
unfolding run_pending run_with get_applied_migrations apply_all apply_migration on_table
    record_bootstrap ensure_schema_migrations_table list_migration_files sort comes_first
    find_drifted_migrations
succeeds = refl

run_pending-Progress_example :
    Progress platform ready
      (record { name = 10; checksum = some 1001 } ∷ [])
      two_more
      (run_pending platform false fresh)
run_pending-Progress_example =
    run_pending-Progress platform platform-Respectful fresh ready _ (10 ∷ 20 ∷ 30 ∷ []) ensured refl
      clean files

run_pending_again_example :
    run_pending platform true (run_pending platform false fresh).1
    ≡ (none, (run_pending platform false fresh).1)
run_pending_again_example = run_pending_again platform platform-Respectful true fresh succeeds

abbrev all_three : List Row
all_three =
    record { name = 10; checksum = some 1001 }
    ∷ record { name = 20; checksum = some 1002 }
    ∷ record { name = 30; checksum = some 1003 }
    ∷ []

abbrev migrated : Db platform
migrated = record { table = some all_three; schema = 3 ∷ 2 ∷ [] }

chosen : to_roll_back platform 2 all_three ≡ 30 ∷ 20 ∷ []
unfolding to_roll_back sort comes_first
chosen = refl
