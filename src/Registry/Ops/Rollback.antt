-- ===== src/Registry/Ops/Rollback.antt =====
-- `RollbackModel` on the production model itself, and what `Reconcile` then makes of it.
use ropus.Common.{false}
use ropus.Registry.Types.{RegisteredModel, rolled_back}

abbrev retire : RegisteredModel → RegisteredModel
retire m = record m { lifecycle_state = rolled_back; is_production_active = false }
