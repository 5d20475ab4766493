-- ===== src/Rollout.antt =====
-- The canary rollout: backend/internal/riskengine/circuit_breaker.go and canary_router.go.
pub mod Float
pub mod Breaker
pub mod Metrics
pub mod Router
