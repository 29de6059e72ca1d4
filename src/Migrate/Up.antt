-- ===== src/Migrate/Up.antt =====
-- What `runPending` leaves in schema_migrations.
use mathlib.Core.Path.{subst}
use coop_lumen_index.Base.{
  ℕ, ◌≡◌, refl, sym, ap, ◌∙◌, Bool, true, false, Option, none, some, List, [], ◌∷◌, ◌++◌, arith,
  inr, ◌⊎◌, map, append_assoc, append-nil, Option-cases, inl, all,
}
use coop_lumen_index.Migrate.{Row, Platform, Failure, table_missing}
use coop_lumen_index.Migrate.Files.{
  filter, mem, list_migration_files, find_drifted_migrations, migration_names,
}
use coop_lumen_index.Migrate.Order.{all-mem, mem-files}
use coop_lumen_index.Migrate.Runner.{
  Db, Outcome, on_table, ensure_schema_migrations_table, apply_migration, apply_all, pending_of,
  run_with, run_pending, get_applied_migrations,
}

abbrev pub option_map : (ℕ → ℕ) → Option ℕ → Option ℕ
option_map f none = none
option_map f (some a) = some (f a)

pub Outcome-cases :
    (P : Platform) (o : Outcome P)
    → ((db : Db P) × (o ≡ (none, db))) ⊎ ((f : Failure) × (o ≡ (some f, o.1)))
Outcome-cases P (none, db) = inl (db, refl)
Outcome-cases P (some f, db) = inr (f, refl)

pub get_applied :
    (P : Platform) (f : List Row → Db P → Outcome P) (db : Db P) (rows : List Row)
    → db.table ≡ some rows
    → get_applied_migrations P f db ≡ f rows db
unfolding get_applied_migrations
get_applied P f db rows t =
    ap
      (λ (o : Option (List Row)). elim o as (λ _. Outcome P) [
        | none ↦ (some table_missing, db)
        | some r ↦ f r db
      ])
      t

module _ (P : Platform) where
  open P use {bootstrap, disk, execute, checksum_of}

  -- The row that a migration leaves.
  abbrev pub recorded : ℕ → Row
  recorded name = record { name = name; checksum = option_map checksum_of (disk name) }

  -- What the SQL of the files does to schema_migrations: 001_schema_migrations.sql creates it where
  -- it is missing and else does nothing, and the other migrations leave it alone.
  pub record Respectful : Type 0 where
    pub creates :
        (sql : ℕ) (db db' : Db P)
        → disk bootstrap ≡ some sql
        → db.table ≡ none
        → execute sql db ≡ some db'
        → db'.table ≡ some []
    pub again :
        (sql : ℕ) (db : Db P) (rows : List Row)
        → disk bootstrap ≡ some sql
        → db.table ≡ some rows
        → execute sql db ≡ some db
    pub keeps :
        (name sql : ℕ) (db db' : Db P) (rows : List Row)
        → mem name (migration_names P) ≡ true
        → disk name ≡ some sql
        → db.table ≡ some rows
        → execute sql db ≡ some db'
        → db'.table ≡ some rows

  -- The migrations ran one after the other: each is the SQL of its file, and then its row.
  pub data Applies : List ℕ → Db P → Db P → Type 0 where
    applies_none : {db : Db P} → Applies [] db db
    applies_next :
        {name : ℕ} {names : List ℕ} {db mid db' : Db P} (sql : ℕ) (rows : List Row)
        → disk name ≡ some sql
        → execute sql db ≡ some mid
        → mid.table ≡ some rows
        → Applies names (record mid { table = some (rows ++ recorded name ∷ []) }) db'
        → Applies (name ∷ names) db db'

  -- The run stopped after some of the names, which are recorded in their order behind the rows
  -- that were there, and stopped at the last one if there was no exception.
  pub record Progress (from : Db P) (rows : List Row) (names : List ℕ) (out : Outcome P)
      : Type 0 where
    pub done : List ℕ
    pub rest : List ℕ
    pub split : names ≡ done ++ rest
    pub ran : Applies done from out.1
    pub table : out.1.table ≡ some (rows ++ map recorded done)
    pub complete : out.0 ≡ none → rest ≡ []

  abbrev AllListed : List ℕ → Type 0
  AllListed names = all (λ n. mem n (migration_names P)) names ≡ true

  module _ (honest : Respectful) where
    apply_migration-table :
        (name : ℕ) (db db' : Db P) (rows : List Row)
        → mem name (migration_names P) ≡ true
        → db.table ≡ some rows
        → apply_migration P name db ≡ (none, db')
        → (db'.table ≡ some (rows ++ recorded name ∷ []))
          × (sql : ℕ) × (mid : Db P) × (disk name ≡ some sql)
          × (execute sql db ≡ some mid)
          × (mid.table ≡ some rows)
          × (record mid { table = some (rows ++ recorded name ∷ []) } ≡ db')
    unfolding apply_migration on_table
    apply_migration-table name db db' rows listed t e = elim (Option-cases (disk name)) [
      | inl missing ↦ absurd (ground arith)
      | inr (sql, found) ↦ elim (Option-cases (execute sql db)) [
        | inl fails ↦ absurd (ground arith)
        | inr (mid, ran) ↦
            let kept = honest.keeps name sql db mid rows listed found t ran in
            (ground arith, sql, mid, found, ran, kept, ground arith)
      ]
    ]

    apply_migration_failed :
        (name : ℕ) (db : Db P) (f : Failure)
        → (apply_migration P name db).0 ≡ some f
        → (apply_migration P name db).1 ≡ db
    unfolding apply_migration on_table
    apply_migration_failed name db f e = ground arith

    apply_all-Progress :
        (names : List ℕ) (db : Db P) (rows : List Row)
        → AllListed names
        → db.table ≡ some rows
        → Progress db rows names (apply_all P names db)
    unfolding apply_all
    apply_all-Progress [] db rows listed t = record {
      done = [];
      rest = [];
      split = refl;
      ran = applies_none;
      table = t ∙ ap some (sym (append-nil rows));
      complete = λ _. refl;
    }
    apply_all-Progress (name ∷ names) db rows listed t =
        elim (Outcome-cases P (apply_migration P name db)) [
          | inl (mid, e) ↦
              let here : mem name (migration_names P) ≡ true = ground arith in
              let there : AllListed names = ground arith in
              let (step, sql, there_mid, found, did, kept, same) =
                apply_migration-table name db mid rows here t e in
              let p = apply_all-Progress names mid (rows ++ recorded name ∷ []) there step in
              rw e (record {
                done = name ∷ p.done;
                rest = p.rest;
                split = ap (λ xs. name ∷ xs) p.split;
                ran =
                    applies_next sql rows found did kept
                      (subst (λ d. Applies p.done d (apply_all P names mid).1) (sym same) p.ran);
                table =
                    p.table
                    ∙ ap some (append_assoc rows (recorded name ∷ []) (map recorded p.done));
                complete = p.complete;
              })
          | inr (f, e) ↦
              let same = apply_migration_failed name db f (ap (λ (o : Outcome P). o.0) e) in
              rw e (record {
                done = [];
                rest = name ∷ names;
                split = refl;
                ran = subst (λ d. Applies [] db d) (sym same) applies_none;
                table = ap (λ (d : Db P). d.table) same ∙ t ∙ ap some (sym (append-nil rows));
                complete = λ h. ground arith;
              })
        ]

    all-filter : (p q : ℕ → Bool) (xs : List ℕ) → all q xs ≡ true → all q (filter p xs) ≡ true
    all-filter p q [] h = refl
    all-filter p q (x ∷ xs) h = let rest = all-filter p q xs (ground arith) in ground arith

    -- Once the tracking table is there and holds rows that no file contradicts, a run executes
    -- the SQL of the missing migrations in the order of the list, each followed by its row in
    -- the table, up to the first that fails: those before it are recorded in order behind the
    -- rows that were there, and if there was no exception all are. The migrations' SQL is
    -- assumed to leave schema_migrations alone.
    pub run_pending-Progress :
        (db db₀ : Db P) (rows : List Row) (files : List ℕ)
        → ensure_schema_migrations_table P db ≡ (none, db₀)
        → db₀.table ≡ some rows
        → find_drifted_migrations P rows ≡ []
        → list_migration_files P ≡ inr files
        → Progress db₀ rows (pending_of P rows files) (run_pending P false db)
    unfolding run_pending get_applied_migrations run_with
    run_pending-Progress db db₀ rows files e t clean list =
        let listed : AllListed files = all-mem _ files λ n m. sym (mem-files P files n list) ∙ m in
        let missing = all-filter _ _ files listed in
        let applied : run_pending P false db ≡ run_with P false rows db₀ =
          rw (e, run_pending) (get_applied P (run_with P false) db₀ rows t) in
        let pending : run_with P false rows db₀ ≡ apply_all P (pending_of P rows files) db₀ =
          rw (clean, run_with) (rw list refl) in
        let same = applied ∙ pending in
        subst (Progress db₀ rows (pending_of P rows files)) (sym same)
          (apply_all-Progress (pending_of P rows files) db₀ rows missing t)
