-- ===== src/Retraining.antt =====
-- The retraining of the risk model: backend/internal/riskengine/retraining_types.go,
-- retraining_trigger.go, offline_validator.go and retraining_coordinator.go.
pub mod Types
pub mod Trigger
pub mod Gates
pub mod State
pub mod Ends
pub mod Coordinator
pub mod Pipeline
pub mod Steps
