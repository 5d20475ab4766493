-- ===== src/Registry/Ops/Safety.antt =====
-- The operations of the registry keep one model active in production, a rollback of the production
-- model apart.
use ropus.Common.{
  ℕ, ◌≡◌, ◌≢◌, refl, ◌⊎◌, inl, inr, String, str_eq, eq_iff, true, false, Option, none, some, arith,
  map_option, Option-cases, Bool-cases,
}
use ropus.Common.Int.{ℤ}
use ropus.Common.Dict.{
  lookup, contains, update, lookup-insert, lookup-update, contains-update, contains-insert,
  insert-IsMap, update-IsMap,
}
use ropus.Registry.Types.{
  ModelLifecycleState, ModelProvenance, RegisteredModel, ModelRegistry, ModelCandidate, rolled_back,
  validated, shadow,
}
use ropus.Registry.Ops.{
  new_model_registry, register_candidate, update_lifecycle_state, promote_model, checked_by,
  promote_found, canary_found, out_of_range, on_model, promote_conditional_canary,
  attach_provenance, rollback_model, crown, demote, registered, enter_state, enter_canary,
  switch_production,
}
use ropus.Registry.Provenance.{validate_provenance_chain, validate_conditional_promotion_provenance}
use ropus.Registry.Reconcile.Safe.{IsSafe}

-- A write that leaves the active flag alone.
update-IsSafe :
    (v : String) (f : RegisteredModel → RegisteredModel) (r : ModelRegistry)
    → ((m : RegisteredModel) → (f m).is_production_active ≡ m.is_production_active)
    → IsSafe r
    → IsSafe (record r { models = update v f r.models })
update-IsSafe v f r keeps h = record {
  distinct = update-IsMap v f r.models h.distinct;
  present = ground (arith, contains-update v r.production_model f r.models, h.present);
  sole = λ ver m e.
      active ver m (lookup ver r.models) refl (ground (arith, lookup-update v ver f r.models));
}
  where
    active :
        (ver : String) (m : RegisteredModel) (o : Option RegisteredModel)
        → lookup ver r.models ≡ o
        → (o ≡ some m) ⊎ (map_option f o ≡ some m)
        → m.is_production_active ≡ str_eq r.production_model ver
    active ver m none e c = elim c [ inl p ↦ cc | inr p ↦ cc ]
    active ver m (some w) e c = ground (arith, keeps w, h.sole ver w e)

pub new_model_registry-IsSafe : (now : ℕ) → IsSafe (new_model_registry now)
unfolding new_model_registry
new_model_registry-IsSafe now = record {
  distinct = (refl, (refl, tt));
  present = refl;
  sole =
      λ ver m e. ground (arith, eq_iff "fraud-xgb-25f-v3.0" ver, eq_iff "fraud-xgb-15f-v1.5" ver);
}

pub register_candidate-IsSafe :
    (c : ModelCandidate) (uri sum : String) (now : ℕ) (r : ModelRegistry)
    → IsSafe r
    → IsSafe (register_candidate c uri sum now r).1
unfolding register_candidate
register_candidate-IsSafe c uri sum now r h = elim (Bool-cases (str_eq c.version "")) [
  | inl blank ↦ rw blank h
  | inr named ↦ elim (Option-cases (lookup c.version r.models)) [
    | inl new ↦
        rw (named, new)
          (record {
            distinct = insert-IsMap c.version (registered c uri sum now) r.models h.distinct;
            present = ground (
              arith,
              contains-insert c.version r.production_model (registered c uri sum now) r.models,
              h.present,
            );
            sole = λ ver m e. ground (
              arith,
              lookup-insert c.version ver (registered c uri sum now) r.models,
              h.sole ver m,
              h.present,
              eq_iff c.version ver,
              eq_iff r.production_model ver,
            );
          })
    | inr (m, e) ↦ rw (named, e) h
  ]
]

on_model-IsSafe :
    (v : String) (f : RegisteredModel → RegisteredModel) (r : ModelRegistry)
    → ((m : RegisteredModel) → (f m).is_production_active ≡ m.is_production_active)
    → IsSafe r
    → IsSafe (on_model v f r).1
on_model-IsSafe v f r keeps h = elim (Bool-cases (contains v r.models)) [
  | inl found ↦ rw found (update-IsSafe v f r keeps h)
  | inr unknown ↦ rw unknown h
]

enter_state_active :
    (s : ModelLifecycleState) (m : RegisteredModel)
    → (enter_state s m).is_production_active ≡ m.is_production_active
enter_state_active validated m = refl
enter_state_active shadow m = refl
enter_state_active _ m = refl

pub update_lifecycle_state-IsSafe :
    (v : String) (s : ModelLifecycleState) (r : ModelRegistry)
    → IsSafe r
    → IsSafe (update_lifecycle_state v s r).1
unfolding update_lifecycle_state
update_lifecycle_state-IsSafe v s r h = on_model-IsSafe v (enter_state s) r (enter_state_active s) h

pub attach_provenance-IsSafe :
    (v : String) (p : Option ModelProvenance) (r : ModelRegistry)
    → IsSafe r
    → IsSafe (attach_provenance v p r).1
unfolding attach_provenance
attach_provenance-IsSafe v p r h =
    on_model-IsSafe v (λ m. record m { provenance = p }) r (λ m. refl) h

pub promote_conditional_canary-IsSafe :
    (v : String) (pct : ℤ) (r : ModelRegistry)
    → IsSafe r
    → IsSafe (promote_conditional_canary v pct r).1
unfolding promote_conditional_canary
promote_conditional_canary-IsSafe v pct r h = elim (Bool-cases (out_of_range pct)) [
  | inl bad ↦ rw bad h
  | inr fine ↦ rw fine (found (lookup v r.models))
]
  where
    found : (o : Option RegisteredModel) → IsSafe (canary_found v r o).1
    found none = h
    found (some m) =
        elim (Option-cases (checked_by validate_conditional_promotion_provenance m.provenance)) [
          | inl passed ↦ rw (passed, canary_found) (update-IsSafe v enter_canary r (λ w. refl) h)
          | inr (e, blocked) ↦ rw (blocked, canary_found) h
        ]

-- A rollback of any other model keeps the active one.
pub rollback_model-IsSafe :
    (v : String) (r : ModelRegistry)
    → v ≢ r.production_model
    → IsSafe r
    → IsSafe (rollback_model v r).1
unfolding rollback_model
rollback_model-IsSafe v r ne h = elim (Bool-cases (contains v r.models)) [
  | inl found ↦ rw found (record {
    distinct = update-IsMap v retire r.models h.distinct;
    present = ground (arith, contains-update v r.production_model retire r.models, h.present);
    sole = λ ver m e. elim (Option-cases (lookup ver r.models)) [
      | inl gone ↦ ground (arith, lookup-update v ver retire r.models)
      | inr (w, found) ↦ ground (
        arith,
        lookup-update v ver retire r.models,
        h.sole ver w found,
        eq_iff v ver,
        eq_iff r.production_model ver,
      )
    ];
  })
  | inr unknown ↦ rw unknown h
]
  where
    retire : RegisteredModel → RegisteredModel
    retire m = record m { lifecycle_state = rolled_back; is_production_active = false }

-- The new production model is active, and the old one is not.
switch_production-IsSafe :
    (v : String) (now : ℕ) (r : ModelRegistry)
    → contains v r.models ≡ true
    → IsSafe r
    → IsSafe (switch_production v now r)
unfolding switch_production
switch_production-IsSafe v now r c h = elim (Option-cases (lookup r.production_model r.models)) [
  | inl gone ↦ absurd (ground (arith, h.present))
  | inr (prev, e) ↦ rw e (
      let d = update r.production_model demote r.models in
      record {
        distinct =
            update-IsMap v (crown now) d
              (update-IsMap r.production_model demote r.models h.distinct);
        present = ground (
          arith,
          contains-update v v (crown now) d,
          contains-update r.production_model v demote r.models,
        );
        sole = λ ver m q. elim (Option-cases (lookup ver r.models)) [
          | inl gone ↦ ground (
            arith,
            lookup-update v ver (crown now) d,
            lookup-update r.production_model ver demote r.models,
          )
          | inr (w, found) ↦ ground (
            arith,
            lookup-update v ver (crown now) d,
            lookup-update r.production_model ver demote r.models,
            h.sole ver w found,
          )
        ];
      })
]

pub promote_model-IsSafe :
    (v : String) (now : ℕ) (r : ModelRegistry) → IsSafe r → IsSafe (promote_model v now r).1
unfolding promote_model
promote_model-IsSafe v now r h = elim (Option-cases (lookup v r.models)) [
  | inl unknown ↦ rw unknown h
  | inr (cand, e) ↦
      rw e (elim (Option-cases (checked_by validate_provenance_chain cand.provenance)) [
        | inl passed ↦ rw (passed, promote_found) (switch_production-IsSafe v now r (rw e) h)
        | inr (x, blocked) ↦ rw (blocked, promote_found) h
      ])
]
