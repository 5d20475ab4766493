-- ===== src/Registry/Reconcile/Safe.antt =====
-- The repaired registry: one model is active in production, the authoritative one.
use ropus.Common.{
  ℕ, ◌+◌, ◌≡◌, refl, ◌∙◌, ap, sym, String, str_eq, eq_iff, true, false, ◌&&◌, not, Option, none,
  some, [], ◌∷◌, arith, if◌then◌else◌, map_option,
}
use ropus.Common.Dict.{
  Dict, lookup, contains, update, map_entries, IsMap, lookup-update, lookup-map_entries,
  insert-IsMap, contains-insert, contains-update, contains-map_entries, update-IsMap,
  map_entries-IsMap, range_update, range_update-map,
}
use ropus.Artifact.{Disk}
use ropus.Registry.Types.{RegisteredModel, ModelRegistry, failed}
use ropus.Registry.Ops.{fallback_version, baseline_fallback}
use ropus.Registry.Reconcile.{
  Tally, State, no_findings, set_active, is_corrupted, is_pending, ensure_fallback,
  ensure_production, ensure_single, check_candidates, visit_active, finish_single, visit_candidate,
  reconcile_state, reconcile,
}

-- Exactly one model is marked active: the one that the registry names, which it holds.
pub record IsSafe (r : ModelRegistry) : Type 0 where
  pub distinct : IsMap r.models
  pub present : contains r.production_model r.models ≡ true
  pub sole :
      (ver : String) (m : RegisteredModel)
      → lookup ver r.models ≡ some m
      → m.is_production_active ≡ str_eq r.production_model ver

abbrev HasProduction : ModelRegistry → Type 0
HasProduction r = IsMap r.models × (contains r.production_model r.models ≡ true)

abbrev HasFallback : ModelRegistry → Type 0
HasFallback r = IsMap r.models × (contains r.fallback_model r.models ≡ true)

ensure_fallback-HasFallback :
    (now : ℕ) (s : State) → IsMap s.0.models → HasFallback (ensure_fallback now s).0
unfolding ensure_fallback
ensure_fallback-HasFallback now (r, t) h = ground (
  arith,
  eq_iff fallback_version fallback_version,
  insert-IsMap fallback_version (baseline_fallback now none) r.models h,
  contains-insert fallback_version fallback_version (baseline_fallback now none) r.models,
)

ensure_production-HasProduction :
    (disk : Disk) (now : ℕ) (s : State)
    → HasFallback s.0
    → HasProduction (ensure_production disk now s).0
unfolding ensure_production
ensure_production-HasProduction disk now (r, t) h =
    let drop = update r.production_model (set_active false) r.models in
    ground (
      arith,
      update-IsMap r.fallback_model (set_active true) r.models h.0,
      contains-update r.fallback_model r.fallback_model (set_active true) r.models,
      update-IsMap r.production_model (set_active false) r.models h.0,
      contains-update r.production_model r.fallback_model (set_active false) r.models,
      update-IsMap r.fallback_model (set_active true) drop,
      contains-update r.fallback_model r.fallback_model (set_active true) drop,
    )

-- What the third pass writes.
abbrev pub deactivate : String → String → RegisteredModel → RegisteredModel
deactivate prod ver m =
    if m.is_production_active && not (str_eq ver prod) then set_active false m else m

pub visit_active-model :
    (prod ver : String) (m : RegisteredModel) (t : Tally)
    → (visit_active prod ver m t).0 ≡ deactivate prod ver m
visit_active-model prod ver m t = ground arith

abbrev pub active_count : Option RegisteredModel → ℕ
active_count none = 0
active_count (some m) = if m.is_production_active then 1 else 0

-- The third pass counts the active flag of the production model, and no other.
pub prod_count-range :
    (prod : String) (d : Dict RegisteredModel) (t : Tally)
    → IsMap d
    → (range_update (visit_active prod) d t).1.prod_count
      ≡ t.prod_count + active_count (lookup prod d)
unfolding range_update
prod_count-range prod [] t h = omega arith
prod_count-range prod ((k, m) ∷ d) t h =
    ground (arith, eq_iff k prod, prod_count-range prod d (visit_active prod k m t).1 h.1)

-- The flag is set at the production model, where no model has it.
finish_single-IsSafe :
    (r : ModelRegistry) (d : Dict RegisteredModel) (t : Tally)
    → IsMap d
    → contains r.production_model d ≡ true
    → t.prod_count ≡ active_count (lookup r.production_model d)
    → ((ver : String) (m : RegisteredModel)
        → lookup ver d ≡ some m
        → str_eq r.production_model ver ≡ false
        → m.is_production_active ≡ false)
    → IsSafe (finish_single r (d, t)).0
unfolding finish_single
finish_single-IsSafe r d t distinct present counted others = record {
  distinct = ground (arith, update-IsMap r.production_model (set_active true) d distinct);
  present =
      ground (arith, contains-update r.production_model r.production_model (set_active true) d);
  sole = λ ver m e. ground (
    arith,
    eq_iff r.production_model ver,
    lookup-update r.production_model ver (set_active true) d,
    others ver m,
  );
}

deactivate_other :
    (prod ver : String) (d : Dict RegisteredModel) (m : RegisteredModel)
    → lookup ver (map_entries (deactivate prod) d) ≡ some m
    → str_eq prod ver ≡ false
    → m.is_production_active ≡ false
deactivate_other prod ver d m e ne =
    ground (arith, lookup-map_entries (deactivate prod) ver d, eq_iff prod ver, eq_iff ver prod)

active_count-deactivate :
    (prod : String) (d : Dict RegisteredModel)
    → active_count (lookup prod (map_entries (deactivate prod) d)) ≡ active_count (lookup prod d)
active_count-deactivate prod d =
    ground (arith, lookup-map_entries (deactivate prod) prod d, eq_iff prod prod)

ensure_single-IsSafe : (s : State) → HasProduction s.0 → IsSafe (ensure_single s).0
unfolding ensure_single
ensure_single-IsSafe (r, t) h =
    let prod = r.production_model in
    let t' : Tally = record t { prod_count = 0 } in
    let swept = range_update (visit_active prod) r.models t' in
    let same =
      range_update-map (visit_active prod) (deactivate prod) (visit_active-model prod) r.models
        t' in
    finish_single-IsSafe r swept.0 swept.1
      (rw same (map_entries-IsMap (deactivate prod) r.models h.0))
      (rw same (contains-map_entries (deactivate prod) prod r.models ∙ h.1))
      (rw same (
        omega
          (arith, prod_count-range prod r.models t' h.0, active_count-deactivate prod r.models)))
      (λ ver m e ne. deactivate_other prod ver r.models m (rw same at e) ne)

-- What the fourth pass writes.
abbrev pub mark : Disk → ℕ → String → RegisteredModel → RegisteredModel
mark disk now ver m =
    if is_pending m.lifecycle_state && is_corrupted disk now m
    then record m { lifecycle_state = failed }
    else m

pub check_candidates-models :
    (disk : Disk) (now : ℕ) (s : State)
    → (check_candidates disk now s).0
      ≡ record (s.0) { models = map_entries (mark disk now) s.0.models }
unfolding check_candidates
check_candidates-models disk now (r, t) =
    ap (λ (d : Dict RegisteredModel). record r { models = d })
      (range_update-map (visit_candidate disk now) (mark disk now) (λ k m t'. ground arith) r.models
        t)

check_candidates-IsSafe :
    (disk : Disk) (now : ℕ) (s : State) → IsSafe s.0 → IsSafe (check_candidates disk now s).0
check_candidates-IsSafe disk now s h = rw check_candidates-models (record {
  distinct = map_entries-IsMap (mark disk now) s.0.models h.distinct;
  present = contains-map_entries (mark disk now) s.0.production_model s.0.models ∙ h.present;
  sole = λ ver m e.
      marked ver m (lookup ver s.0.models) refl
        (sym (lookup-map_entries (mark disk now) ver s.0.models) ∙ e);
})
  where
    marked :
        (ver : String) (m : RegisteredModel) (o : Option RegisteredModel)
        → lookup ver s.0.models ≡ o
        → map_option (mark disk now ver) o ≡ some m
        → m.is_production_active ≡ str_eq s.0.production_model ver
    marked ver m none e e' = cc
    marked ver m (some m0) e e' = ground (arith, h.sole ver m0 e)

-- Whatever the registry was, as long as it listed no version twice: after `Reconcile` exactly one
-- model is active in production, the one that the registry names, which it holds, and no version is
-- listed twice.
pub reconcile-IsSafe :
    (disk : Disk) (now : ℕ) (r : ModelRegistry) → IsMap r.models → IsSafe (reconcile disk now r).1
unfolding reconcile reconcile_state
reconcile-IsSafe disk now r h =
    let s1 = ensure_fallback now (r, no_findings) in
    let s2 = ensure_production disk now s1 in
    check_candidates-IsSafe disk now (ensure_single s2) (
      ensure_single-IsSafe s2 (
        ensure_production-HasProduction disk now s1
          (ensure_fallback-HasFallback now (r, no_findings) h)))
