-- ===== src/Account.antt =====
-- Account deletions after the request: backend/internal/account (queue.go, relay.go, worker.go).
pub mod Queue
pub mod Worker
pub mod Relay
pub mod Tracking
pub mod Deliveries
pub mod Rounds
pub mod Requested
pub mod Pipeline
pub mod Completion
pub mod Drained
pub mod Fulfilled
