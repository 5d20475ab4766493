-- ===== src/Registry/Ops/Distinct.antt =====
-- No operation of the registry lists a version twice.
use ropus.Common.{ℕ, String, false, Option, none, some, arith}
use ropus.Common.Int.{ℤ}
use ropus.Common.Dict.{lookup, update, IsMap, insert-IsMap, update-IsMap}
use ropus.Registry.Types.{
  ModelLifecycleState, ModelProvenance, RegisteredModel, ModelRegistry, ModelCandidate, rolled_back,
}
use ropus.Registry.Ops.{
  register_candidate, update_lifecycle_state, promote_model, promote_found, canary_found, on_model,
  promote_conditional_canary, attach_provenance, rollback_model, crown, demote, registered,
  enter_state, enter_canary, switch_production,
}

module _ (r : ModelRegistry) (h : IsMap r.models) where
  on_model-IsMap :
      (v : String) (f : RegisteredModel → RegisteredModel) → IsMap (on_model v f r).1.models
  on_model-IsMap v f = ground (arith, update-IsMap v f r.models h)

  switch_production-IsMap : (v : String) (now : ℕ) → IsMap (switch_production v now r).models
  unfolding switch_production
  switch_production-IsMap v now =
      let d = update r.production_model demote r.models in
      ground (
        arith,
        update-IsMap v (crown now) r.models h,
        update-IsMap r.production_model demote r.models h,
        update-IsMap v (crown now) d,
      )

  promote_found-IsMap :
      (v : String) (now : ℕ) (o : Option RegisteredModel) → IsMap (promote_found v now r o).1.models
  unfolding promote_found
  promote_found-IsMap v now none = h
  promote_found-IsMap v now (some m) = ground (arith, switch_production-IsMap v now)

  canary_found-IsMap :
      (v : String) (o : Option RegisteredModel) → IsMap (canary_found v r o).1.models
  unfolding canary_found
  canary_found-IsMap v none = h
  canary_found-IsMap v (some m) = ground (arith, update-IsMap v enter_canary r.models h)

  pub register_candidate-IsMap :
      (c : ModelCandidate) (uri sum : String) (now : ℕ)
      → IsMap (register_candidate c uri sum now r).1.models
  unfolding register_candidate
  register_candidate-IsMap c uri sum now =
      ground (arith, insert-IsMap c.version (registered c uri sum now) r.models h)

  pub update_lifecycle_state-IsMap :
      (v : String) (s : ModelLifecycleState) → IsMap (update_lifecycle_state v s r).1.models
  unfolding update_lifecycle_state
  update_lifecycle_state-IsMap v s = on_model-IsMap v (enter_state s)

  pub promote_model-IsMap : (v : String) (now : ℕ) → IsMap (promote_model v now r).1.models
  unfolding promote_model
  promote_model-IsMap v now = promote_found-IsMap v now (lookup v r.models)

  pub promote_conditional_canary-IsMap :
      (v : String) (pct : ℤ) → IsMap (promote_conditional_canary v pct r).1.models
  unfolding promote_conditional_canary
  promote_conditional_canary-IsMap v pct = ground (arith, canary_found-IsMap v (lookup v r.models))

  pub attach_provenance-IsMap :
      (v : String) (p : Option ModelProvenance) → IsMap (attach_provenance v p r).1.models
  unfolding attach_provenance
  attach_provenance-IsMap v p = on_model-IsMap v (λ m. record m { provenance = p })

  pub rollback_model-IsMap : (v : String) → IsMap (rollback_model v r).1.models
  unfolding rollback_model
  rollback_model-IsMap v =
      on_model-IsMap v λ m. record m { lifecycle_state = rolled_back; is_production_active = false }
