-- ===== src/Notify.antt =====
-- The email outbox's relay: backend/internal/notify/outbox.go.
pub mod Backoff
pub mod Relay
pub mod Due
