-- ===== src/Lock.antt =====
-- The distributed lock: backend/internal/riskengine/distributed_lock.go. A call takes the time that
-- it reads and the token that it draws. Times to live are not negative.
pub mod Local
pub mod Exclusion
pub mod Counts
pub mod Remote
