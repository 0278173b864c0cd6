-- ===== src/Migrations/Runner.antt =====
-- `Run` of internal/migrations/runner.go and the functions that it calls. PostgreSQL, the file
-- system and their failures are a parameter, `World`. A transaction that is not committed leaves
-- the database as it was. The advisory lock serialises the passes of the replicas, so that a pass
-- sees no other one.
pub mod Pending
pub mod Pass
pub mod Order
use across_backend_api.Prelude.{
  ◌+◌, ◌-◌, ◌/◌, Bool, true, false, not, ◌&&◌, ◌||◌, Option, none, some, List, [], ◌∷◌, ◌++◌, ltb,
  ◌==◌, if◌then◌else◌,
}
use across_backend_api.Prelude.Text.{Text, codes, text_eq, is_empty, trim_space, mem_text}
use across_backend_api.Prelude.Outcome.{Outcome, ok, err, ◌>>=◌, ◌>>◌, reject_if}
use across_backend_api.Migrations.Splitter.{split_sql_statements}

pub record DirEntry : Type 0 where
  pub name : Text
  pub is_dir : Bool

pub record World (S : Type 0) : Type 0 where
  pub read_dir : Option (List DirEntry)
  pub read_file : Text → Option Text
  pub exec : Text → S → Option S  -- one statement on the schema
  pub has_core : S → Bool  -- `to_regclass('public.countries_config') IS NOT NULL`
  pub acquire_fails : Bool
  pub lock_fails : Bool
  pub tracking_fails : Bool
  pub select_fails : Bool
  pub baseline_fails : Bool
  pub begin_fails : Text → Bool
  pub mark_fails : Text → Bool
  pub commit_fails : Text → Bool

pub record Database (S : Type 0) : Type 0 where
  pub schema : S
  pub ledger : List Text  -- the names in `schema_migrations`

pub data Failure : Type 0 where
  acquire lock tracking listing select baseline : Failure
  mark : Text → Failure
  unreadable begin statement mark_in_tx commit : Text → Failure

abbrev pub schema_sql : Text
schema_sql = codes "schema.sql"

-- `filepath.Ext` of a name without slashes: what stands from the last dot on.
unfoldable pub ext : Text → Text
ext [] = []
ext (c ∷ s) = let e = ext s in if is_empty e then (if c == b'.' then c ∷ s else []) else e

-- The order of strings, and `sort.Strings`.
unfoldable pub text_leb : Text → Text → Bool
text_leb [] t = true
text_leb (a ∷ s) [] = false
text_leb (a ∷ s) (b ∷ t) = ltb a b || a == b && text_leb s t

unfoldable pub insert_sorted : Text → List Text → List Text
unfolding text_leb
insert_sorted s [] = s ∷ []
insert_sorted s (t ∷ ts) = if text_leb s t then s ∷ t ∷ ts else t ∷ insert_sorted s ts

unfoldable pub sort_strings : List Text → List Text
unfolding insert_sorted
sort_strings [] = []
sort_strings (s ∷ ts) = insert_sorted s (sort_strings ts)

unfoldable pub sql_names : List DirEntry → List Text
unfolding ext text_eq
sql_names [] = []
sql_names (e ∷ es) =
    let rest = sql_names es in
    if e.is_dir || not (text_eq (ext e.name) (codes ".sql")) then rest else e.name ∷ rest

-- The list without the first occurrence of a name.
unfoldable pub erase_first : Text → List Text → List Text
unfolding text_eq
erase_first n [] = []
erase_first n (m ∷ ms) = if text_eq m n then ms else m ∷ erase_first n ms

unfoldable pub load_migration_names : List DirEntry → List Text
unfolding sql_names sort_strings mem_text erase_first
load_migration_names entries =
    let names = sort_strings (sql_names entries) in
    if mem_text schema_sql names then schema_sql ∷ erase_first schema_sql names else names

module _ {S : Type 0} (w : World S) where
  -- `INSERT … ON CONFLICT (name) DO NOTHING`
  unfoldable pub record_name : Text → Database S → Database S
  unfolding mem_text
  record_name n db = if mem_text n db.ledger then db else record db { ledger = db.ledger ++ n ∷ [] }

  unfoldable pub exec_all : List Text → S → Option S
  unfolding trim_space
  exec_all [] s = some s
  exec_all (q ∷ qs) s =
      let rest = exec_all qs in
      if is_empty (trim_space q)
      then rest s
      else elim (w.exec q s) [ none ↦ none | some t ↦ rest t ]

  abbrev or_fail : {A : Type 0} → Option A → Failure → Outcome Failure A
  or_fail none e = err e
  or_fail (some a) e = ok a

  -- The database after the commit, or the error after which it is rolled back.
  unfoldable pub apply_migration : Text → Database S → Outcome Failure (Database S)
  unfolding exec_all record_name split_sql_statements
  apply_migration n db = do
    content ← or_fail (w.read_file n) (unreadable n)
    reject_if (w.begin_fails n) (begin n)
    s ← or_fail (exec_all (split_sql_statements content) db.schema) (statement n)
    reject_if (w.mark_fails n) (mark_in_tx n)
    reject_if (w.commit_fails n) (commit n)
    ok (record_name n (record db { schema = s }))

  -- What the loop does with one file: `applied` and `core` were read before it began.
  unfoldable pub visit : List Text → Bool → Text → Database S → Outcome Failure (Database S)
  unfolding apply_migration mem_text text_eq
  visit applied core n db =
      if mem_text n applied
      then ok db
      else if text_eq n schema_sql && core
      then (do reject_if (w.mark_fails n) (mark n); ok (record_name n db))
      else apply_migration n db

  -- The loop. A failure ends it, and what has been committed stays.
  unfoldable pub run_files : List Text → Bool → List Text → Database S → Database S × Option Failure
  unfolding visit
  run_files applied core [] db = (db, none)
  run_files applied core (n ∷ ns) db = elim (visit applied core n db) [
    | err e ↦ (db, some e)
    | ok db' ↦ run_files applied core ns db'
  ]

  unfoldable pub run : Database S → Database S × Option Failure
  unfolding run_files load_migration_names
  run db =
      if w.acquire_fails
      then (db, some acquire)
      else if w.lock_fails
      then (db, some lock)
      else if w.tracking_fails
      then (db, some tracking)
      else elim w.read_dir [
        | none ↦ (db, some listing)
        | some entries ↦
            if w.select_fails
            then (db, some select)
            else if w.baseline_fails
            then (db, some baseline)
            else run_files db.ledger (w.has_core db.schema) (load_migration_names entries) db
      ]
