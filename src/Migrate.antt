-- ===== src/Migrate.antt =====
-- backend/src/db/migrate.ts: the runner that brings a database up to the migration files on disk,
-- or takes the last migrations back. File names and SQL texts are numbers: the runner only compares
-- names and hashes or executes texts.
pub mod Files
pub mod Runner
pub mod Command
pub mod Up
pub mod Order
pub mod Rows
pub mod Again
pub mod Down
pub mod Newest
mod Examples
use coop_lumen_index.Base.{ℕ, Bool, List, Option}

-- `AppliedMigrationRow`
pub record Row : Type 0 where
  pub name : ℕ
  pub checksum : Option ℕ

-- The rows of schema_migrations in the order of their application, none if the table does not
-- exist, and everything else that the database holds.
pub record Database (S : Type 0) : Type 0 where
  pub table : Option (List Row)
  pub schema : S

-- A directory entry: `isFile()`, and whether its name ends in '.sql' and in '.down.sql'.
pub record Entry : Type 0 where
  pub name : ℕ
  pub is_file : Bool
  pub ends_sql : Bool
  pub ends_down : Bool

-- What the runner uses of the file system, of PostgreSQL and of JavaScript: the files on disk (none
-- is ENOENT), the effect of an SQL text (none is an error), `checksumOf`, the number that
-- MIGRATION_FILE_PATTERN captures from a name (none if it does not match), whether
-- `left.localeCompare(right) <= 0`, and the name with '.sql' replaced by '.down.sql'.
pub record Platform : Type 1 where
  Schema : Type 0
  bootstrap : ℕ
  entries : List Entry
  disk : ℕ → Option ℕ
  execute : ℕ → Database Schema → Option (Database Schema)
  is_empty : ℕ → Bool
  checksum_of : ℕ → ℕ
  version : ℕ → Option ℕ
  locale_leb : ℕ → ℕ → Bool
  down : ℕ → ℕ

pub data Failure : Type 0 where
  bootstrap_missing file_missing sql_failed table_missing : Failure
  invalid_names changed_on_disk : List ℕ → Failure
