-- ===== src/Xp.antt =====
-- The XP ledger: rewards, withdrawals and the reservations of the retired checkout discount
-- (internal/controllers/reward_service.go, xp_withdrawals.go, xp_redemption.go).
pub mod Rows
pub mod Tables
pub mod Rewards
pub mod Withdrawals
pub mod Review
pub mod Conservation
pub mod Invariant
pub mod Moves
pub mod Opened
pub mod Requests
pub mod Redemptions
mod Tests
