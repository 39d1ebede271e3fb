-- ===== src/Outbox.antt =====
-- internal/outbox: the transactional outbox worker and its PostgreSQL store.
pub mod Observer
pub mod Backoff
pub mod Row
pub mod Store
pub mod Worker
pub mod Run
pub mod Delivery
mod Samples
mod Tests
mod DrainTests
