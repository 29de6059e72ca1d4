-- ===== src/Migrate/Down.antt =====
-- What `rollback` takes away.
use coop_lumen_index.Base.{
  ℕ, ◌≡◌, Bool, true, false, not, none, some, List, [], ◌∷◌, ◌++◌, if◌then◌else◌, ◌≤◌, length,
}
use coop_lumen_index.Migrate.{Row, Platform}
use coop_lumen_index.Migrate.Files.{filter, mem, is_some, names_of, comes_first}
use coop_lumen_index.Migrate.Runner.{Db, Outcome, without}

module _ (P : Platform) where
  open P use {disk, execute, down}

  abbrev pub has_down : ℕ → Bool
  has_down name = is_some (disk (down name))

  -- The rows that are left when these migrations are taken back: a migration without a down file
  -- keeps its row.
  abbrev pub left_of : List ℕ → List Row → List Row
  left_of names = filter λ row. not (mem row.name (filter has_down names))

  -- The down files of these migrations leave schema_migrations alone.
  abbrev pub DownKeeps : List ℕ → Type 0
  DownKeeps names =
      (name sql : ℕ) (db db' : Db P) (rows : List Row)
      → mem name names ≡ true
      → disk (down name) ≡ some sql
      → db.table ≡ some rows
      → execute sql db ≡ some db'
      → db'.table ≡ some rows

  -- The migrations were taken back one after the other: the row of each goes and then the SQL of its
  -- down file runs, or nothing happens if it has none.
  pub data TakesBack : List ℕ → Db P → Db P → Type 0 where
    takes_none : {db : Db P} → TakesBack [] db db
    takes_next :
        {name : ℕ} {names : List ℕ} {db mid db' : Db P} (sql : ℕ) (rows : List Row)
        → disk (down name) ≡ some sql
        → db.table ≡ some rows
        → execute sql (record db { table = some (left_of (name ∷ []) rows) }) ≡ some mid
        → TakesBack names mid db'
        → TakesBack (name ∷ names) db db'
    keeps_next :
        {name : ℕ} {names : List ℕ} {db db' : Db P}
        → disk (down name) ≡ none
        → TakesBack names db db'
        → TakesBack (name ∷ names) db db'

  -- The run stopped after some of the names, whose rows are gone, and stopped at the last one if
  -- there was no exception.
  pub record Removal (from : Db P) (rows : List Row) (names : List ℕ) (out : Outcome P)
      : Type 0 where
    pub done : List ℕ
    pub rest : List ℕ
    pub split : names ≡ done ++ rest
    pub ran : TakesBack done from out.1
    pub table : out.1.table ≡ some (left_of done rows)
    pub complete : out.0 ≡ none → rest ≡ []

  abbrev after_one : ℕ → List Row → List Row
  after_one name rows = if has_down name then without name rows else rows

  -- What is taken back: applied migrations, the newest, as many as were asked for or all.
  pub record IsNewest (steps : ℕ) (rows : List Row) (names : List ℕ) : Type 0 where
    pub applied : (n : ℕ) → mem n names ≡ true → mem n (names_of rows) ≡ true
    pub newest :
        (m n : ℕ)
        → mem n names ≡ true
        → mem m (names_of rows) ≡ true
        → mem m names ≡ false
        → comes_first P m n ≡ true
    pub at_most : length names ≤ steps
    pub enough : (m : ℕ) → mem m (names_of rows) ≡ true → mem m names ≡ false → length names ≡ steps
