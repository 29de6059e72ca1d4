-- ===== src/Migrate/Again.antt =====
-- A second run of the migrations, after one that succeeded.
use coop_lumen_index.Base.{
  ℕ, ◌≡◌, refl, sym, ap, ◌∙◌, Bool, true, false, not, ◌||◌, none, some, List, [], ◌∷◌, ◌++◌, arith,
  ◌==◌, inl, inr, map, append-nil, Bool-cases, Option-cases, List-cases, Sum-cases,
}
use coop_lumen_index.Migrate.{Row, Platform}
use coop_lumen_index.Migrate.Files.{
  filter, mem, names_of, list_migration_files, find_drifted_migrations, is_drifted,
}
use coop_lumen_index.Migrate.Runner.{
  Db, on_table, ensure_schema_migrations_table, insert_if_absent, apply_all, pending_of, run_with,
  run_pending, get_applied_migrations, record_bootstrap, apply_pending,
}
use coop_lumen_index.Migrate.Rows.{
  filter-append, mem-append, filled, filled-append, fill_checksum_again, filled-fill_checksum,
  names_of-fill_checksum, mem-insert_if_absent, filter_none, mem-pending,
}
use coop_lumen_index.Migrate.Up.{Outcome-cases, recorded, Respectful, run_pending-Progress}

module _ (P : Platform) where
  open P use {bootstrap, disk, execute, is_empty, checksum_of}

  names_of-recorded : (names : List ℕ) → names_of (map (recorded P) names) ≡ names
  names_of-recorded [] = refl
  names_of-recorded (n ∷ names) = ap (λ xs. n ∷ xs) (names_of-recorded names)

  not_drifted : (names : List ℕ) → filter (is_drifted P) (map (recorded P) names) ≡ []
  not_drifted [] = refl
  not_drifted (n ∷ names) = ground (arith, not_drifted names)

  -- The row of the bootstrap migration is there, with its checksum unless its file is empty.
  abbrev Bootstrapped : ℕ → List Row → Type 0
  Bootstrapped sql rows =
      (mem bootstrap (names_of rows) ≡ true) × ((is_empty sql || filled bootstrap rows) ≡ true)

  Bootstrapped-once : (sql : ℕ) (rows : List Row) → Bootstrapped sql (record_bootstrap P sql rows)
  unfolding record_bootstrap
  Bootstrapped-once sql rows = (
    ground (
      arith,
      mem-insert_if_absent bootstrap rows,
      names_of-fill_checksum (checksum_of sql) bootstrap (insert_if_absent bootstrap rows),
    ),
    ground
        (arith, filled-fill_checksum (checksum_of sql) bootstrap (insert_if_absent bootstrap rows)),
  )

  record_bootstrap_again :
      (sql : ℕ) (rows : List Row) → Bootstrapped sql rows → record_bootstrap P sql rows ≡ rows
  unfolding record_bootstrap
  record_bootstrap_again sql rows (there, full) = elim (Bool-cases (is_empty sql)) [
    | inl e ↦ ground arith
    | inr d ↦
        let same = fill_checksum_again (checksum_of sql) bootstrap rows (ground arith) in
        ground arith
  ]

  filled-recorded :
      (sql : ℕ) (names : List ℕ)
      → disk bootstrap ≡ some sql
      → filled bootstrap (map (recorded P) names) ≡ true
  filled-recorded sql [] found = refl
  filled-recorded sql (n ∷ names) found = elim (Bool-cases (n == bootstrap)) [
    | inl e ↦
        let same : n ≡ bootstrap = ground arith in
        let there : disk n ≡ some sql = ap disk same ∙ found in
        let rest = filled-recorded sql names found in rw there (ground arith)
    | inr d ↦ let rest = filled-recorded sql names found in ground arith
  ]

  both_filled :
      (e : Bool) (xs ys : List Row)
      → (e || filled bootstrap xs) ≡ true
      → filled bootstrap ys ≡ true
      → (e || filled bootstrap (xs ++ ys)) ≡ true
  both_filled true xs ys h k = refl
  both_filled false xs ys h k = filled-append bootstrap xs ys h k

  -- What a run that ended without an exception has gone through.
  record Succeeded (db : Db P) : Type 0 where
    ready : Db P
    rows : List Row
    files : List ℕ
    sql : ℕ
    ensured : ensure_schema_migrations_table P db ≡ (none, ready)
    found : disk bootstrap ≡ some sql
    table : ready.table ≡ some rows
    bootstrapped : Bootstrapped sql rows
    clean : find_drifted_migrations P rows ≡ []
    listed : list_migration_files P ≡ inr files

  module _ (honest : Respectful P) where
    ensure_again :
        (sql : ℕ) (rows : List Row) (db : Db P)
        → disk bootstrap ≡ some sql
        → db.table ≡ some rows
        → Bootstrapped sql rows
        → ensure_schema_migrations_table P db ≡ (none, db)
    unfolding ensure_schema_migrations_table on_table
    ensure_again sql rows db found t b =
        let ran = honest.again sql db rows found t in
        let same = record_bootstrap_again sql rows b in ground arith

    ensure_succeeded :
        (db ready : Db P)
        → ensure_schema_migrations_table P db ≡ (none, ready)
        → (sql : ℕ) × (rows : List Row) × (disk bootstrap ≡ some sql)
          × (ready.table ≡ some rows)
          × Bootstrapped sql rows
    unfolding ensure_schema_migrations_table on_table
    ensure_succeeded db ready e = elim (Option-cases (disk bootstrap)) [
      | inl missing ↦ absurd (ground arith)
      | inr (sql, found) ↦ elim (Option-cases (execute sql db)) [
        | inl fails ↦ absurd (ground arith)
        | inr (mid, ran) ↦ elim (Option-cases mid.table) [
          | inl gone ↦ absurd (ground arith)
          | inr (rows, t) ↦
              (sql, record_bootstrap P sql rows, found, ground arith, Bootstrapped-once sql rows)
        ]
      ]
    ]

    run_succeeded :
        (dry_run : Bool) (rows : List Row) (db : Db P)
        → (run_with P dry_run rows db).0 ≡ none
        → (find_drifted_migrations P rows ≡ [])
          × (files : List ℕ) × (list_migration_files P ≡ inr files)
    unfolding run_with
    run_succeeded dry_run rows db h = elim (List-cases (find_drifted_migrations P rows)) [
      | inr (x, xs, changed) ↦ absurd (ground arith)
      | inl clean ↦ elim (Sum-cases (list_migration_files P)) [
        | inl (f, bad) ↦ absurd (ground arith)
        | inr (files, listed) ↦ (clean, files, listed)
      ]
    ]

    succeeded : (dry_run : Bool) (db : Db P) → (run_pending P dry_run db).0 ≡ none → Succeeded db
    unfolding run_pending get_applied_migrations
    succeeded dry_run db h = elim (Outcome-cases P (ensure_schema_migrations_table P db)) [
      | inr (f, fails) ↦ absurd (ground arith)
      | inl (ready, e) ↦
          let (sql, rows, found, t, b) = ensure_succeeded db ready e in
          let (clean, files, listed) = run_succeeded dry_run rows ready (ground arith) in
          record {
            ready = ready;
            rows = rows;
            files = files;
            sql = sql;
            ensured = e;
            found = found;
            table = t;
            bootstrapped = b;
            clean = clean;
            listed = listed;
          }
    ]

    nothing_left :
        (dry_run : Bool) (rows : List Row) (db : Db P)
        → db.table ≡ some rows
        → apply_pending P dry_run [] db ≡ (none, record db { table = some rows })
    unfolding apply_all
    nothing_left dry_run rows db t = ground arith

    settled :
        (dry_run : Bool) (db : Db P) (rows : List Row) (files : List ℕ)
        → ensure_schema_migrations_table P db ≡ (none, db)
        → db.table ≡ some rows
        → find_drifted_migrations P rows ≡ []
        → list_migration_files P ≡ inr files
        → pending_of P rows files ≡ []
        → run_pending P dry_run db ≡ (none, db)
    unfolding run_pending get_applied_migrations run_with apply_all
    settled dry_run db rows files e t clean listed none_left =
        rw (e, run_pending)
          (rw (t, get_applied_migrations)
            (rw (clean, run_with) (rw listed (rw none_left (nothing_left dry_run rows db t)))))

    module _ {db : Db P} (s : Succeeded db) where
      final_rows : List Row
      final_rows = s.rows ++ map (recorded P) (pending_of P s.rows s.files)

      final_table :
          (run_pending P false db).0 ≡ none → (run_pending P false db).1.table ≡ some final_rows
      unfolding final_rows
      final_table h =
          let p =
            run_pending-Progress P honest db s.ready s.rows s.files s.ensured s.table s.clean
              s.listed in
          let all_done : pending_of P s.rows s.files ≡ p.done =
            p.split ∙ ap (λ xs. p.done ++ xs) (p.complete h) ∙ append-nil p.done in
          p.table ∙ ap (λ xs. some (s.rows ++ map (recorded P) xs)) (sym all_done)

      final_listed : (n : ℕ) → mem n s.files ≡ true → mem n (names_of final_rows) ≡ true
      unfolding final_rows
      final_listed n m =
          let pending = pending_of P s.rows s.files in
          mem-append n s.rows (map (recorded P) pending)
          ∙ ap (λ xs. mem n (names_of s.rows) || mem n xs) (names_of-recorded pending)
          ∙ mem-pending P n s.rows s.files m

      final_Bootstrapped : Bootstrapped s.sql final_rows
      unfolding final_rows
      final_Bootstrapped =
          let new = map (recorded P) (pending_of P s.rows s.files) in
          let (there, full) = s.bootstrapped in
          (
            mem-append bootstrap s.rows new ∙ ap (λ b. b || mem bootstrap (names_of new)) there,
            both_filled (is_empty s.sql) s.rows new full
                (filled-recorded s.sql (pending_of P s.rows s.files) s.found),
          )

      final_clean : find_drifted_migrations P final_rows ≡ []
      unfolding final_rows find_drifted_migrations
      final_clean =
          let pending = pending_of P s.rows s.files in
          let before = filter-append (is_drifted P) s.rows (map (recorded P) pending) in
          let none_new = not_drifted pending in
          ap names_of before
          ∙ ap (λ xs. names_of (filter (is_drifted P) s.rows ++ xs)) none_new
          ∙ ap names_of (append-nil (filter (is_drifted P) s.rows))
          ∙ s.clean

      final_pending : pending_of P final_rows s.files ≡ []
      final_pending = filter_none _ s.files λ n m. ap not (final_listed n m)

    -- When a run has succeeded, every migration on disk is recorded, where the bootstrap
    -- migration is idempotent and the others leave schema_migrations alone.
    pub run_pending_complete :
        (db : Db P) (files : List ℕ) (n : ℕ)
        → list_migration_files P ≡ inr files
        → (run_pending P false db).0 ≡ none
        → mem n files ≡ true
        → (rows : List Row) × ((run_pending P false db).1.table ≡ some rows)
          × (mem n (names_of rows) ≡ true)
    run_pending_complete db files n listed h m =
        let s = succeeded false db h in
        let same : files ≡ s.files = ground (arith, s.listed) in
        (final_rows s, final_table s h, final_listed s n (ap (mem n) (sym same) ∙ m))

    -- When a run has succeeded, running again, dry or not, changes nothing and succeeds, where
    -- the bootstrap migration is idempotent and the others leave schema_migrations alone.
    pub run_pending_again :
        (dry_run : Bool) (db : Db P)
        → (run_pending P false db).0 ≡ none
        → run_pending P dry_run (run_pending P false db).1 ≡ (none, (run_pending P false db).1)
    run_pending_again dry_run db h =
        let s = succeeded false db h in
        let t = final_table s h in
        let ready =
          ensure_again s.sql (final_rows s) (run_pending P false db).1 s.found t
            (final_Bootstrapped s) in
        settled dry_run (run_pending P false db).1 (final_rows s) s.files ready t (final_clean s)
          s.listed (final_pending s)
