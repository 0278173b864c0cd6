-- ===== src/Config.antt =====
-- The configuration, internal/config.
pub mod Policy
pub mod PolicyModel
pub mod Validate
pub mod Promises
pub mod Connections
pub mod Accepted
mod Tests
