-- ===== src/Retraining/Steps/Lawful.antt =====
-- The lifecycle of a coordinator on which nobody cancels a job or rejects a candidate.
use ropus.Common.{
  ℕ, ◌+◌, sym, ◌∙◌, ◌≡◌, inl, inr, refl, String, false, none, some, List, [], ◌∷◌, ◌++◌, arith,
}
use ropus.Rollout.Float.{Floats}
use ropus.Registry.Types.{ModelRegistry}
use ropus.Retraining.Types.{RetrainingConfig, can_transition_to}
use ropus.Rollout.Router.{CanaryRouter}
use ropus.Retraining.State.{
  new_retraining_coordinator, RetrainingCoordinator, set_maintenance_mode, set_model_frozen,
  set_retraining_paused, set_canary_paused,
}
use ropus.Retraining.Coordinator.{create_and_start_job, approve_candidate}
use ropus.Retraining.Pipeline.{
  Training, Cause, Thread, After, advance, returns, goes_on, panics, queueing, entering,
}
use ropus.Retraining.Steps.{
  new_system, System, resume, spawn, leaving, Switch, Step, Steps, done, then_step,
}
use ropus.Retraining.Steps.Serial.{Expects, has_stored, Rests, IsSerial, Lawful, Leads}
use ropus.Retraining.Steps.Ahead.{
  settled_triggers, single_split, no_split, appended, Expects-IsBusy, start_lem, approve_lem,
  advance-Leads,
}

module _ (fl : Floats) (message : Cause fl.F → String) where
  open fl use {F}

  Switch-same :
      {c c' : RetrainingCoordinator F}
      → Switch c c'
      → (c'.current_state ≡ c.current_state) × (c'.active_job ≡ c.active_job)
  unfolding set_maintenance_mode set_model_frozen set_retraining_paused set_canary_paused
  Switch-same (Switch.maintenance b) = (refl, refl)
  Switch-same (Switch.freeze b) = (refl, refl)
  Switch-same (Switch.pause_retraining b) = (refl, refl)
  Switch-same (Switch.pause_canary b) = (refl, refl)

  same-IsSerial :
      (s : System F) (c : RetrainingCoordinator F)
      → c.current_state ≡ s.coordinator.current_state
      → c.active_job ≡ s.coordinator.active_job
      → IsSerial s
      → IsSerial (leaving c s)
  unfolding IsSerial Rests leaving
  same-IsSerial s c e a (p, inl (q, inl (r, n))) = (p, inl (q, inl (rw e r, a ∙ n)))
  same-IsSerial s c e a (p, inl (q, inr (r, n))) = (p, inl (q, inr (e ∙ r, rw a n)))
  same-IsSerial s c e a (p, inr (t, q, (x, j, b, n))) = (p, inr (t, q, (rw e x, j, rw a b, n)))

  resumed-IsSerial :
      (next : After F) (c c' : RetrainingCoordinator F)
      → Leads c (next, c')
      → IsSerial (resume [] [] next c') × Lawful c c'
  unfolding Leads IsSerial resume
  resumed-IsSerial (goes_on t) c c' (l, f) = ((refl, inr (t, refl, f)), l)
  resumed-IsSerial returns c c' (l, r) = ((refl, inl (refl, r)), l)
  resumed-IsSerial panics c c' e = absurd (ground arith)

  -- A step of a goroutine has picked the only one there is.
  advanced-IsSerial :
      (s : System F) (before : List (Thread F)) (t : Thread F) (after : List (Thread F)) (now : ℕ)
      (a : Training F)
      → s.threads ≡ before ++ (t ∷ after)
      → IsSerial s
      → let (next, c) = advance fl message now a t.stage t s.coordinator in
        IsSerial (resume before after next c) × Lawful s.coordinator c
  unfolding IsSerial
  advanced-IsSerial s before t after now a e (p, inl (q, r)) =
      let no = no_split before t after (sym e ∙ q) in ground arith
  advanced-IsSerial s before t after now a e (p, inr (t', q, f)) =
      let (b, u, v) = single_split before t after t' (sym e ∙ q) in
      let (next, c) = advance fl message now a t.stage t s.coordinator in
      let l = advance-Leads fl message now a t.stage t s.coordinator refl (rw u f) in
      rw (b, v) (resumed-IsSerial next s.coordinator c l)

  started-IsSerial :
      (now : ℕ) (id dataset trigger_type reason actor : String) (samples : ℕ) (s : System F)
      (c : RetrainingCoordinator F)
      → create_and_start_job now id dataset trigger_type reason samples s.coordinator ≡ (none, c)
      → IsSerial s
      → IsSerial (spawn queueing (some (s.coordinator.next_job + 1)) none actor now c s)
        × Lawful s.coordinator c
  unfolding IsSerial Rests spawn Expects has_stored
  started-IsSerial now id dataset kind reason actor n s c e (p, inl (q, r)) =
      let (free, d, t, b) = start_lem now id dataset kind reason n s.coordinator c e in
      let new : Thread F = record {
        job = some (s.coordinator.next_job + 1);
        candidate = none;
        actor = actor;
        start = now;
        stage = queueing;
      } in
      ((p, inr (new, appended new q, (t, refl, b, refl))), inr (rw t (settled_triggers _ d)))
  started-IsSerial now id dataset kind reason actor n s c e (p, inr (t, q, f)) =
      let h = start_lem now id dataset kind reason n s.coordinator c e in ground arith

  approved-IsSerial :
      (now : ℕ) (id actor : String) (cand : ℕ) (s : System F) (c : RetrainingCoordinator F)
      → approve_candidate id s.coordinator ≡ (none, some cand, c)
      → IsSerial s
      → IsSerial (spawn entering s.coordinator.active_job (some cand) actor now c s)
        × Lawful s.coordinator c
  unfolding IsSerial Rests spawn Expects has_stored can_transition_to
  approved-IsSerial now id actor cand s c e (p, inl (q, inl (d, n))) =
      let h = approve_lem id cand s.coordinator c e in ground arith
  approved-IsSerial now id actor cand s c e (p, inl (q, inr (w, b))) =
      let (from, to, same) = approve_lem id cand s.coordinator c e in
      let new : Thread F = record {
        job = s.coordinator.active_job;
        candidate = some cand;
        actor = actor;
        start = now;
        stage = entering;
      } in
      ((p, inr (new, appended new q, (inr to, b, rw same b, refl))), inr (rw (from, to) refl))
  approved-IsSerial now id actor cand s c e (p, inr (t, q, f)) =
      let h = approve_lem id cand s.coordinator c e in
      let no = Expects-IsBusy t.stage _ f.0 h.0 in ground arith

  -- One step from a serial system, with no cancellation and no rejection.
  next-IsSerial :
      (s s' : System F)
      → Step fl message false s s'
      → IsSerial s
      → IsSerial s' × Lawful s.coordinator s'.coordinator
  unfolding spawn leaving resume
  next-IsSerial s _ (Step.starts now id dataset kind reason actor n c p q) h =
      started-IsSerial now id dataset kind reason actor n s c q h
  next-IsSerial s _ (Step.evaluates now m cb p) h = (same-IsSerial s _ refl refl h, inl refl)
  next-IsSerial s _ (Step.observes o p) h = (same-IsSerial s _ refl refl h, inl refl)
  next-IsSerial s _ (Step.switches c p w) h =
      let (e, a) = Switch-same w in (same-IsSerial s c e a h, inl e)
  next-IsSerial s _ (Step.approves now id actor cand c p q) h =
      approved-IsSerial now id actor cand s c q h
  next-IsSerial s _ (Step.cancels now id actor reason job p o q) h = ground arith
  next-IsSerial s _ (Step.rejects now id actor reason cand p o q) h = ground arith
  next-IsSerial s _ (Step.advances before t after now a p q) h =
      advanced-IsSerial s before t after now a q h

  reached-IsSerial : (s s' : System F) → Steps fl message false s s' → IsSerial s → IsSerial s'
  reached-IsSerial s s' done h = h
  reached-IsSerial s s' (then_step r k) h = (next-IsSerial _ s' k (reached-IsSerial s _ r h)).0

  -- The lifecycle is lawful. On a new coordinator, as long as nobody cancels a job or rejects a
  -- candidate, whatever else happens in any interleaving: every step leaves the coordinator's state
  -- or moves it along an edge of `CanTransitionTo`; nothing panics; there is at most one goroutine,
  -- and it stands where the state says; and where there is none, the job has ended, or it waits for
  -- approval.
  pub lifecycle_holds :
      (cfg : RetrainingConfig F) (router : CanaryRouter F) (registry : ModelRegistry)
      (s s' : System F)
      → Steps fl message false (new_system fl cfg router registry) s
      → Step fl message false s s'
      → Lawful s.coordinator s'.coordinator × IsSerial s'
  unfolding new_system new_retraining_coordinator IsSerial Rests
  lifecycle_holds cfg router registry s s' r k =
      let start =
        reached-IsSerial (new_system fl cfg router registry) s r
          (refl, inl (refl, inl (refl, refl))) in
      let (h, l) = next-IsSerial s s' k start in (l, h)
