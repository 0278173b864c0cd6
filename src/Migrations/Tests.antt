-- ===== src/Migrations/Tests.antt =====
-- The splitter and the runner on small inputs.
use across_backend_api.Prelude.{◌≡◌, refl, false, none, some, List, [], ◌∷◌, ◌++◌, map}
use across_backend_api.Prelude.Text.{Text, codes, mem_text}
use across_backend_api.Migrations.Splitter.{split_sql_statements, trimmed}
use across_backend_api.Migrations.Splitter.Round.{join, kept}
use across_backend_api.Migrations.Splitter.Lossless.{split-lossless}
use across_backend_api.Migrations.Splitter.Segment.{IsClosed, done, after, literal}
use across_backend_api.Migrations.Splitter.Closed.{split-closed}
use across_backend_api.Migrations.Runner.{DirEntry, World, Database, load_migration_names, run}
use across_backend_api.Migrations.Runner.Pending.{Distinct, pending}
use across_backend_api.Migrations.Runner.Pass.{Prefix, run-installs, run_again}
use across_backend_api.Migrations.Runner.Order.{load_migration_names-Distinct}

abbrev two_statements : Text
two_statements = codes "a;'b;c'"

split_two : split_sql_statements two_statements ≡ codes "a" ∷ codes "'b;c'" ∷ []
unfolding split_sql_statements
split_two = refl

split-lossless_example :
    (p : Text) × (ps : List Text) × (split_sql_statements two_statements ≡ kept (p ∷ ps))
    × (join p ps ≡ two_statements)
split-lossless_example = split-lossless two_statements

-- A literal with a semicolon in it.
abbrev quoted_name : Text
quoted_name = codes "'b;c'"

quoted-IsClosed : IsClosed quoted_name
quoted-IsClosed = after (literal (codes "b;c") refl) refl done

split-closed_example :
    split_sql_statements (quoted_name ++ b';' ∷ codes "a")
    ≡ trimmed quoted_name ++ split_sql_statements (codes "a")
split-closed_example = split-closed quoted-IsClosed (codes "a")

abbrev folder : List DirEntry
folder =
    record { name = codes "b.sql"; is_dir = false }
    ∷ record { name = codes "schema.sql"; is_dir = false }
    ∷ record { name = codes "a.sql"; is_dir = false }
    ∷ []

-- A database that keeps the statements it runs.
abbrev recorder : World (List Text)
recorder = record {
  read_dir = some folder;
  read_file = λ n. some (n ++ codes ";x");
  exec = λ q s. some (s ++ q ∷ []);
  has_core = λ s. false;
  acquire_fails = false;
  lock_fails = false;
  tracking_fails = false;
  select_fails = false;
  baseline_fails = false;
  begin_fails = λ n. false;
  mark_fails = λ n. false;
  commit_fails = λ n. false;
}

abbrev before : Database (List Text)
before = record { schema = []; ledger = codes "a.sql" ∷ [] }

folder-Distinct : Distinct (map (λ e. e.name) folder)
unfolding mem_text
folder-Distinct = (refl, (refl, (refl, tt)))

names-Distinct : Distinct (load_migration_names folder)
names-Distinct = load_migration_names-Distinct folder folder-Distinct

run-installs_example :
    Prefix recorder
      (recorder.has_core before.schema)
      (pending before.ledger (load_migration_names folder))
      before
      (run recorder before)
run-installs_example = run-installs recorder before folder refl names-Distinct

run-before : (run recorder before).1 ≡ none
unfolding run split_sql_statements
run-before = refl

run_again_example : run recorder (run recorder before).0 ≡ ((run recorder before).0, none)
run_again_example = run_again recorder before folder refl names-Distinct run-before
