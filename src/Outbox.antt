-- ===== src/Outbox.antt =====
-- The event outbox: backend/internal/riskengine/outbox.go.
pub mod Delivery
pub mod Queue
pub mod Steps
pub mod Kept
pub mod Accounts
pub mod Close
