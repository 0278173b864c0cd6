-- ===== src/Batches.antt =====
-- The life of a batch of orders, internal/controllers/batch_lifecycle_controller.go.
pub mod Rules
pub mod Tables
pub mod Transition
pub mod Laws
pub mod Steps
mod Tests
