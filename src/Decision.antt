-- ===== src/Decision.antt =====
-- The decision on a transaction: the middle of `Evaluate` in
-- backend/internal/riskengine/orchestrator.go, and cost_policy.go.
pub mod Cost
pub mod Signals
pub mod Pipeline
pub mod Threats
pub mod Ignored
