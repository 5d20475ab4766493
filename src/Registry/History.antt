-- ===== src/Registry/History.antt =====
-- The registry over its whole life: every operation of model_registry.go, in any order.
use ropus.Common.{ℕ, ◌≡◌, String, Option, List, [], ◌∷◌}
use ropus.Common.Int.{ℤ}
use ropus.Artifact.{Disk}
use ropus.Registry.Types.{ModelLifecycleState, ModelProvenance, ModelRegistry, ModelCandidate}
use ropus.Registry.Ops.{
  register_candidate, update_lifecycle_state, promote_model, promote_conditional_canary,
  attach_provenance, rollback_model,
}
use ropus.Registry.Ops.Safety.{
  register_candidate-IsSafe, update_lifecycle_state-IsSafe, promote_model-IsSafe,
  promote_conditional_canary-IsSafe, attach_provenance-IsSafe, rollback_model-IsSafe,
}
use ropus.Registry.Reconcile.{reconcile}
use ropus.Registry.Reconcile.Safe.{IsSafe, reconcile-IsSafe}

-- A call of an operation that may write.
pub data Op : Type 0 where
  register : ModelCandidate → String → String → ℕ → Op
  set_state : String → ModelLifecycleState → Op
  promote : String → ℕ → Op
  to_canary : String → ℤ → Op
  attach : String → Option ModelProvenance → Op
  roll_back : String → Op
  audit : Disk → ℕ → Op

unfoldable pub apply : Op → ModelRegistry → ModelRegistry
apply (register c uri sum now) r = (register_candidate c uri sum now r).1
apply (set_state v s) r = (update_lifecycle_state v s r).1
apply (promote v now) r = (promote_model v now r).1
apply (to_canary v pct) r = (promote_conditional_canary v pct r).1
apply (attach v prov) r = (attach_provenance v prov r).1
apply (roll_back v) r = (rollback_model v r).1
apply (audit disk now) r = (reconcile disk now r).1

unfoldable pub run : List Op → ModelRegistry → ModelRegistry
run [] r = r
run (op ∷ ops) r = run ops (apply op r)

-- The only operation after which no model, or a model that the registry does not name, is active.
abbrev pub IsProductionRollback : Op → ModelRegistry → Type 0
IsProductionRollback (roll_back v) r = v ≡ r.production_model
IsProductionRollback _ r = ⊥

-- Every operation but a rollback of the production model itself keeps exactly one model active in
-- production: the one that the registry names, which it holds.
pub apply-IsSafe :
    (op : Op) (r : ModelRegistry) → ¬ IsProductionRollback op r → IsSafe r → IsSafe (apply op r)
unfolding apply
apply-IsSafe (register c uri sum now) r n h = register_candidate-IsSafe c uri sum now r h
apply-IsSafe (set_state v s) r n h = update_lifecycle_state-IsSafe v s r h
apply-IsSafe (promote v now) r n h = promote_model-IsSafe v now r h
apply-IsSafe (to_canary v pct) r n h = promote_conditional_canary-IsSafe v pct r h
apply-IsSafe (attach v prov) r n h = attach_provenance-IsSafe v prov r h
apply-IsSafe (roll_back v) r n h = rollback_model-IsSafe v r n h
apply-IsSafe (audit disk now) r n h = reconcile-IsSafe disk now r h.distinct

-- The operations of a history never roll back the model that is in production at that moment.
abbrev pub Avoids : List Op → ModelRegistry → Type 0
Avoids [] r = Unit
Avoids (op ∷ ops) r = (¬ IsProductionRollback op r) × Avoids ops (apply op r)

-- A history that never rolls back the production model of the moment keeps exactly one model
-- active in production at its end.
pub run-IsSafe : (ops : List Op) (r : ModelRegistry) → Avoids ops r → IsSafe r → IsSafe (run ops r)
unfolding run
run-IsSafe [] r a h = h
run-IsSafe (op ∷ ops) r a h = run-IsSafe ops (apply op r) a.1 (apply-IsSafe op r a.0 h)
