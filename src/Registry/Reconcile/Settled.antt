-- ===== src/Registry/Reconcile/Settled.antt =====
-- `Reconcile` settles the registry: a second run changes nothing.
use ropus.Common.{
  ℕ, ◌≡◌, refl, sym, ap, ◌∙◌, subst, inl, inr, String, eq_iff, false, ◌&&◌, some, arith,
  Option-cases,
}
use ropus.Common.Dict.{
  Dict, lookup, map_entries, IsMap, lookup-map_entries, map_entries_id, map_option-map_entries,
  range_update, range_update-map,
}
use ropus.Artifact.{Disk}
use ropus.Registry.Types.{RegisteredModel, ModelRegistry}
use ropus.Registry.Reconcile.{
  State, Tally, is_corrupted, is_pending, ensure_fallback, ensure_production, ensure_single,
  finish_single, visit_active, check_candidates, reconcile_state, reconcile, no_findings,
}
use ropus.Registry.Reconcile.Safe.{
  IsSafe, mark, deactivate, visit_active-model, active_count, prod_count-range,
  check_candidates-models, reconcile-IsSafe,
}
use ropus.Registry.Reconcile.Prepared.{
  IsPrepared, Alike, is_corrupted_any_time, is_corrupted-lifecycle, mark-verdict,
  ensure_fallback-IsPrepared, ensure_production-IsPrepared, ensure_single-Alike, Alike-IsPrepared,
}

-- A registry that a run of `Reconcile` leaves as it is.
record IsSettled (disk : Disk) (now : ℕ) (r : ModelRegistry) : Type 0 where
  prepared : IsPrepared disk now r
  safe : IsSafe r
  marked :
      (ver : String) (m : RegisteredModel)
      → lookup ver r.models ≡ some m
      → (is_pending m.lifecycle_state && is_corrupted disk now m) ≡ false

check_candidates-IsSettled :
    (disk : Disk) (now : ℕ) (s : State)
    → IsPrepared disk now s.0
    → IsSafe (check_candidates disk now s).0
    → IsSettled disk now (check_candidates disk now s).0
check_candidates-IsSettled disk now s p safe = record {
  prepared = Alike-IsPrepared disk now s.0 _ alike p;
  safe = safe;
  marked = rw check_candidates-models (λ ver m e.
      ground (
        arith,
        lookup-map_entries (mark disk now) ver s.0.models,
        is_corrupted-lifecycle disk now,
      ));
}
  where
    alike : Alike disk now s.0 (check_candidates disk now s).0
    alike = rw check_candidates-models (record {
      same_production = refl;
      same_fallback = refl;
      same_verdict = λ ver.
          map_option-map_entries (is_corrupted disk now) ver (mark disk now) s.0.models
            (mark-verdict disk now);
    })

-- The four passes, one after the other.
reconcile_passes :
    (disk : Disk) (now : ℕ) (r : ModelRegistry)
    → (reconcile disk now r).1
      ≡ (check_candidates disk now
          (ensure_single (ensure_production disk now (ensure_fallback now (r, no_findings))))).0
unfolding reconcile reconcile_state
reconcile_passes disk now r = refl

reconcile-IsSettled :
    (disk : Disk) (now : ℕ) (r : ModelRegistry)
    → IsMap r.models
    → IsSettled disk now (reconcile disk now r).1
reconcile-IsSettled disk now r h =
    let s1 = ensure_fallback now (r, no_findings) in
    let s2 = ensure_production disk now s1 in
    let s3 = ensure_single s2 in
    let named = ensure_fallback-IsPrepared now (r, no_findings) in
    let prepared = ensure_production-IsPrepared disk now s1 named.0 named.1 in
    let single = Alike-IsPrepared disk now s2.0 s3.0 (ensure_single-Alike disk now s2) prepared in
    let e = reconcile_passes disk now r in
    rw e (check_candidates-IsSettled disk now s3 single (rw e at (reconcile-IsSafe disk now r h)))

at_registry :
    (r : ModelRegistry) (pass : State → State)
    → ((t : Tally) → (pass (r, t)).0 ≡ r)
    → (s : State) → s.0 ≡ r
    → (pass s).0 ≡ r
at_registry r pass keeps (r', t) e =
    subst (λ (q : ModelRegistry). (pass (q, t)).0 ≡ r) (sym e) (keeps t)

finish_single_busy :
    (r : ModelRegistry) (d : Dict RegisteredModel) (t : Tally)
    → t.prod_count ≡ 1
    → (finish_single r (d, t)).0 ≡ record r { models = d }
unfolding finish_single
finish_single_busy r d t h = ground arith

module _ (disk : Disk) (now later : ℕ) (r : ModelRegistry) (h : IsSettled disk now r) where
  ensure_fallback-settled : (t : Tally) → (ensure_fallback later (r, t)).0 ≡ r
  unfolding ensure_fallback
  ensure_fallback-settled t = ground (arith, h.prepared.named, h.prepared.fallback)

  ensure_production-settled : (t : Tally) → (ensure_production disk later (r, t)).0 ≡ r
  unfolding ensure_production
  ensure_production-settled t = elim (Option-cases (lookup r.production_model r.models)) [
    | inl gone ↦ absurd (ground (arith, h.safe.present))
    | inr (m, e) ↦ rw e (ground (arith, h.prepared.healthy, is_corrupted_any_time disk now later m))
  ]

  deactivate-settled : map_entries (deactivate r.production_model) r.models ≡ r.models
  deactivate-settled =
      map_entries_id (deactivate r.production_model) r.models h.safe.distinct λ k m e.
        ground (arith, h.safe.sole k m e, eq_iff r.production_model k, eq_iff k r.production_model)

  active_count-settled : active_count (lookup r.production_model r.models) ≡ 1
  active_count-settled = elim (Option-cases (lookup r.production_model r.models)) [
    | inl gone ↦ absurd (ground (arith, h.safe.present))
    | inr (m, e) ↦ rw e (
        ground
          (arith, h.safe.sole r.production_model m e, eq_iff r.production_model r.production_model))
  ]

  ensure_single-settled : (t : Tally) → (ensure_single (r, t)).0 ≡ r
  unfolding ensure_single
  ensure_single-settled t =
      let prod = r.production_model in
      let t' : Tally = record t { prod_count = 0 } in
      let swept = range_update (visit_active prod) r.models t' in
      let same =
        range_update-map (visit_active prod) (deactivate prod) (visit_active-model prod) r.models
          t' in
      finish_single_busy r swept.0 swept.1
        (omega (arith, prod_count-range prod r.models t' h.safe.distinct, active_count-settled))
      ∙ ap (λ (d : Dict RegisteredModel). record r { models = d }) (same ∙ deactivate-settled)

  check_candidates-settled : (t : Tally) → (check_candidates disk later (r, t)).0 ≡ r
  check_candidates-settled t =
      check_candidates-models disk later (r, t)
      ∙ ap (λ (d : Dict RegisteredModel). record r { models = d })
          (map_entries_id (mark disk later) r.models h.safe.distinct
            λ k m e. ground (arith, h.marked k m e, is_corrupted_any_time disk now later m))

  reconcile-settled : (reconcile disk later r).1 ≡ r
  reconcile-settled =
      let s1 = ensure_fallback later (r, no_findings) in
      let s2 = ensure_production disk later s1 in
      reconcile_passes disk later r
      ∙ at_registry r (check_candidates disk later) check_candidates-settled (ensure_single s2) (
          at_registry r ensure_single ensure_single-settled s2 (
            at_registry r (ensure_production disk later) ensure_production-settled s1
              (ensure_fallback-settled no_findings)))

-- Running `Reconcile` a second time, at any later moment and on the same file system, changes
-- nothing in the registry that the first run has left.
pub reconcile_idempotent :
    (disk : Disk) (now later : ℕ) (r : ModelRegistry)
    → IsMap r.models
    → (reconcile disk later (reconcile disk now r).1).1 ≡ (reconcile disk now r).1
reconcile_idempotent disk now later r h =
    reconcile-settled disk now later _ (reconcile-IsSettled disk now r h)
