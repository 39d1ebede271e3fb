-- ===== src/Rewards.antt =====
-- internal/rewards: the reward-claim use case and its PostgreSQL transaction.
pub mod Claim
pub mod Validate
pub mod Tables
pub mod Transaction
pub mod Create
pub mod Service
pub mod Uuid
pub mod Samples
mod Tests
mod TrafficTests
