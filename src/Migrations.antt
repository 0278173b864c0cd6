-- ===== src/Migrations.antt =====
-- The schema migrations of internal/migrations/runner.go: the splitter of SQL files, and the pass
-- that applies the files which the ledger does not name yet.
pub mod Splitter
pub mod Runner
mod Tests
