-- ===== src/Payments.antt =====
-- Payments and the gateway's webhooks, internal/controllers/payment_ledger.go and
-- payment_controller.go.
pub mod Attempts
pub mod Webhooks
pub mod Tables
pub mod Orders
pub mod Paid
pub mod Once
pub mod References
mod Tests
