-- ===== src/Email.antt =====
-- The outbox of e-mails, internal/services/email_outbox.go.
pub mod Outbox
pub mod Claims
pub mod Delivery
pub mod Queueing
pub mod Posting
pub mod Attempts
pub mod Effect
pub mod Effects
pub mod Finished
pub mod Only
pub mod Refused
mod Tests
