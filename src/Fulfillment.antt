-- ===== src/Fulfillment.antt =====
-- The fulfilment of merchants' orders, internal/controllers/merchant_fulfillment_controller.go.
pub mod Routes
pub mod Tables
pub mod Transition
pub mod Bulk
pub mod Progress
pub mod Steps
pub mod OneByOne
pub mod Chains
pub mod Traces
pub mod History
pub mod Replay
pub mod Manifests
pub mod Dispatch
pub mod Members
pub mod Departure
mod Tests
