-- ===== src/Play.antt =====
-- Subscriptions that are bought in the Play Store, internal/playbilling.
pub mod Money
pub mod Receipts
pub mod Granted
pub mod Active
pub mod Orders
pub mod Tables
pub mod Purchases
pub mod Process
pub mod Entries
pub mod Books
pub mod Ownership
mod Tests
