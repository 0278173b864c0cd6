-- ===== src/Migrations/Runner/Pass.antt =====
-- A migration pass, from file to file, internal/migrations/runner.go.
use across_backend_api.Prelude.{
  ◌≡◌, refl, sym, ap, subst, ◌∙◌, inl, inr, Bool, true, false, ◌&&◌, Option, none, some, List, [],
  ◌∷◌, ◌++◌, arith, if◌then◌else◌, Bool-cases, if_branches, All, append_assoc, append-nil,
}
use across_backend_api.Prelude.Text.{Text, text_eq, mem_text}
use across_backend_api.Prelude.Outcome.{ok, err, Outcome-cases}
use across_backend_api.Migrations.Splitter.{split_sql_statements}
use across_backend_api.Migrations.Runner.{
  DirEntry, World, Database, Failure, schema_sql, load_migration_names, record_name, exec_all,
  apply_migration, visit, run_files, run,
}
use across_backend_api.Migrations.Runner.Pending.{
  Distinct, pending, mem_text-pending, Lacks, Lacks-step, pending-Lacks, pending-covers,
}

module _ {S : Type 0} (w : World S) where
  -- The schema behind one file: the baseline is only marked where the core tables are there.
  abbrev pub install : Bool → Text → S → Option S
  install core n s = if text_eq n schema_sql && core then some s else elim (w.read_file n) [
    | none ↦ none
    | some content ↦ exec_all w (split_sql_statements content) s
  ]

  abbrev pub install_all : Bool → List Text → S → Option S
  install_all core [] s = some s
  install_all core (n ∷ ns) s = elim (install core n s) [
    | none ↦ none
    | some t ↦ install_all core ns t
  ]

  -- A file that is not in the ledger is installed and entered, or the visit fails.
  visit_new :
      (applied : List Text) (core : Bool) (n : Text) (db : Database S) {db' : Database S}
      → mem_text n applied ≡ false
      → mem_text n db.ledger ≡ false
      → visit w applied core n db ≡ ok db'
      → (db'.ledger ≡ db.ledger ++ n ∷ []) × (install core n db.schema ≡ some db'.schema)
  unfolding visit apply_migration record_name
  visit_new applied core n db new lacks e = ground arith

  -- What the loop leaves behind.
  abbrev pub Prefix : Bool → List Text → Database S → Database S × Option Failure → Type 0
  Prefix core todo db (db', e) =
      (gone : List Text) × (left : List Text) × (todo ≡ gone ++ left)
      × (db'.ledger ≡ db.ledger ++ gone)
      × (install_all core gone db.schema ≡ some db'.schema)
      × (e ≡ none → left ≡ [])

  visit_old :
      (applied : List Text) (core : Bool) (n : Text) (db : Database S)
      → mem_text n applied ≡ true
      → visit w applied core n db ≡ ok db
  unfolding visit
  visit_old applied core n db h = rw h

  run_files_failed :
      (applied : List Text) (core : Bool) (n : Text) (ns : List Text) (db : Database S)
      (e : Failure)
      → visit w applied core n db ≡ err e
      → run_files w applied core (n ∷ ns) db ≡ (db, some e)
  unfolding run_files
  run_files_failed applied core n ns db e h = rw (h, run_files)

  run_files_done :
      (applied : List Text) (core : Bool) (n : Text) (ns : List Text) (db db' : Database S)
      → visit w applied core n db ≡ ok db'
      → run_files w applied core (n ∷ ns) db ≡ run_files w applied core ns db'
  unfolding run_files
  run_files_done applied core n ns db db' h = rw (h, run_files)

  extend :
      (core : Bool) (n : Text) (todo : List Text) (db db' : Database S)
      (r : Database S × Option Failure)
      → db'.ledger ≡ db.ledger ++ n ∷ []
      → install core n db.schema ≡ some db'.schema
      → Prefix core todo db' r
      → Prefix core (n ∷ todo) db r
  extend core n todo db db' r l i (gone, left, e, g, s, z) = (
    n ∷ gone,
    left,
    ap (◌∷◌ n) e,
    g ∙ ap (λ x. x ++ gone) l ∙ append_assoc db.ledger (n ∷ []) gone,
    rw (i, install_all) s,
    z,
  )

  run_files-Prefix :
      (applied : List Text) (core : Bool) (ns : List Text) (db : Database S)
      → Distinct ns
      → All (Lacks db.ledger) (pending applied ns)
      → Prefix core (pending applied ns) db (run_files w applied core ns db)
  unfolding run_files
  run_files-Prefix applied core [] db d a =
      ([], [], refl, sym (append-nil db.ledger), refl, λ _. refl)
  run_files-Prefix applied core (n ∷ ns) db d a = elim (Bool-cases (mem_text n applied)) [
    | inl old ↦
        subst (λ x. Prefix core (pending applied (n ∷ ns)) db x)
          (sym (run_files_done applied core n ns db db (visit_old applied core n db old)))
          (rw old (run_files-Prefix applied core ns db d.1 (rw old at a)))
    | inr new ↦ rw new (elim (Outcome-cases (visit w applied core n db)) [
      | inr (e, failed) ↦
          subst (λ x. Prefix core (n ∷ pending applied ns) db x)
            (sym (run_files_failed applied core n ns db e failed))
            ([], n ∷ pending applied ns, refl, sym (append-nil db.ledger), refl, λ q. cc)
      | inl (db', done) ↦
          let h : All (Lacks db.ledger) (n ∷ pending applied ns) = rw new at a in
          let (l, i) = visit_new applied core n db new h.0 done in
          subst (λ x. Prefix core (n ∷ pending applied ns) db x)
            (sym (run_files_done applied core n ns db db' done))
            (extend core n (pending applied ns) db db' _ l i (
              run_files-Prefix applied core ns db' d.1 (
                rw l (
                  Lacks-step n db.ledger (pending applied ns) (mem_text-pending n applied ns d.0)
                    h.1))))
    ])
  ]

  run_files-All_old :
      (applied : List Text) (core : Bool) (ns : List Text) (db : Database S)
      → All (λ n. mem_text n applied ≡ true) ns
      → run_files w applied core ns db ≡ (db, none)
  unfolding run_files
  run_files-All_old applied core [] db h = refl
  run_files-All_old applied core (n ∷ ns) db h =
      run_files_done applied core n ns db db (visit_old applied core n db h.0)
      ∙ run_files-All_old applied core ns db h.1

  -- The early exits do not depend on the database.
  run_same :
      (db db' : Database S) (entries : List DirEntry)
      → w.read_dir ≡ some entries
      → (run w db).1 ≡ none
      → run_files w db'.ledger (w.has_core db'.schema) (load_migration_names entries) db'
        ≡ (db', none)
      → run w db' ≡ (db', none)
  unfolding run
  run_same db db' entries e h same = ground arith

  -- A pass over distinct file names installs the pending ones in order up to a point, each in
  -- full, and enters exactly those in the ledger; where it reports no error, it has installed
  -- all of them.
  pub run-installs :
      (db : Database S) (entries : List DirEntry)
      → w.read_dir ≡ some entries
      → Distinct (load_migration_names entries)
      → Prefix
          (w.has_core db.schema)
          (pending db.ledger (load_migration_names entries))
          db
          (run w db)
  unfolding run
  run-installs db entries e d =
      if_branches P w.acquire_fails (λ _. stays)
        λ _.
          if_branches P w.lock_fails (λ _. stays)
            λ _.
              if_branches P w.tracking_fails (λ _. stays)
                λ _. rw e (
                  if_branches P w.select_fails (λ _. stays)
                    λ _.
                      if_branches P w.baseline_fails (λ _. stays)
                        λ _.
                          run_files-Prefix db.ledger core names db d
                            (pending-Lacks db.ledger names))
    where
      names : List Text
      names = load_migration_names entries

      core : Bool
      core = w.has_core db.schema

      P : Database S × Option Failure → Type 0
      P = Prefix core (pending db.ledger names) db

      stays : {x : Failure} → P (db, some x)
      stays = ([], pending db.ledger names, refl, sym (append-nil db.ledger), refl, λ q. cc)

  -- After a pass that reports no error, another pass over the same files changes nothing and
  -- reports no error either.
  pub run_again :
      (db : Database S) (entries : List DirEntry)
      → w.read_dir ≡ some entries
      → Distinct (load_migration_names entries)
      → (run w db).1 ≡ none
      → run w (run w db).0 ≡ ((run w db).0, none)
  run_again db entries e d h =
      let (gone, left, split, ledger, _, full) = run-installs db entries e d in
      let names : List Text = load_migration_names entries in
      let all : gone ≡ pending db.ledger names =
        sym (split ∙ ap (◌++◌ gone) (full h) ∙ append-nil gone) in
      run_same db (run w db).0 entries e h (
        run_files-All_old (run w db).0.ledger _ names (run w db).0
          (rw (ledger, all) (pending-covers db.ledger names)))
