-- ===== src/Registry.antt =====
-- The model registry: backend/internal/riskengine/model_registry.go and provenance.go.
pub mod Types
pub mod Provenance
pub mod Ops
pub mod Reconcile
pub mod History
