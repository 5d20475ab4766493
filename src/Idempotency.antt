-- ===== src/Idempotency.antt =====
-- The idempotency store: backend/internal/riskengine/idempotency.go.
pub mod Store
pub mod Steps
pub mod Current
pub mod Once
pub mod Running
pub mod Replay
pub mod Capacity
pub mod Table
pub mod Flow
pub mod Lease
pub mod Durable
