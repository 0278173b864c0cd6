-- ===== src/Settlement.antt =====
-- The reconciliation of sellers' settlements, internal/controllers/settlement_reconciliation.go.
pub mod Values
pub mod Tables
pub mod Apply
pub mod Kept
pub mod Moves
mod Tests
