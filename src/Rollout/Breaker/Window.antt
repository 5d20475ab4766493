-- ===== src/Rollout/Breaker/Window.antt =====
-- When the breaker trips: on `failure_window` breaches with no healthy evaluation between them.
use ropus.Common.{
  ℕ, ◌+◌, ◌≤◌, ◌<◌, ◌≡◌, refl, ◌∙◌, Bool, true, false, List, [], ◌∷◌, arith, leb, ltb, max,
  if◌then◌else◌, Bool-cases, inl, inr,
}
use ropus.Rollout.Float.{Floats}
use ropus.Rollout.Breaker.{
  Limits, Snapshot, CircuitBreaker, is_rolled_back, is_empty, violations_of,
  evaluate_and_check_trip,
}

-- What an evaluation outside the cool-down finds.
pub data Finding : Type 0 where
  too_few good bad : Finding

-- The number of breaches since the last healthy evaluation.
abbrev pub advance : ℕ → Finding → ℕ
advance n too_few = n
advance n good = 0
advance n bad = n + 1

-- The highest that this number gets.
abbrev pub peak : ℕ → List Finding → ℕ
peak n [] = n
peak n (f ∷ fs) = max n (peak (advance n f) fs)

le-peak : (n : ℕ) (fs : List Finding) → n ≤ peak n fs
le-peak n [] = omega arith
le-peak n (f ∷ fs) = omega arith

module _ (fl : Floats) where
  open fl use {F}

  abbrev pub finding : Limits F → Snapshot F → Finding
  finding c s =
      if ltb s.candidate_requests_total c.min_sample_count
      then too_few
      else if is_empty (violations_of fl c s)
      then good
      else bad

  abbrev pub findings : Limits F → List (ℕ × Snapshot F) → List Finding
  findings c [] = []
  findings c ((now, s) ∷ es) = finding c s ∷ findings c es

  -- Whether one of the evaluations, at the times given, reports a trip.
  unfoldable pub trips : List (ℕ × Snapshot F) → CircuitBreaker F → Bool
  trips [] cb = false
  trips ((now, s) ∷ es) cb =
      let (v, cb') = evaluate_and_check_trip fl now s cb in
      let rest = trips es cb' in if v.tripped then true else rest

  -- A breaker that is not rolled back and is short of its window.
  abbrev pub IsArmed : CircuitBreaker F → Type 0
  IsArmed cb =
      (is_rolled_back cb.state ≡ false) × (cb.consecutive_failures < cb.config.failure_window)

  module _ (now : ℕ) (s : Snapshot F) (cb : CircuitBreaker F) (h : IsArmed cb) where
    evaluate_tripped :
        (evaluate_and_check_trip fl now s cb).0.tripped
        ≡ leb cb.config.failure_window (advance cb.consecutive_failures (finding cb.config s))
    unfolding evaluate_and_check_trip
    evaluate_tripped = ground arith

    evaluate_counts :
        (evaluate_and_check_trip fl now s cb).0.tripped ≡ false
        → let cb' = (evaluate_and_check_trip fl now s cb).1 in
          (is_rolled_back cb'.state ≡ false)
          × (cb'.consecutive_failures ≡ advance cb.consecutive_failures (finding cb.config s))
          × (cb'.config ≡ cb.config)
    unfolding evaluate_and_check_trip
    evaluate_counts q = ground arith

  trips_from :
      (c : Limits F) (n : ℕ) (es : List (ℕ × Snapshot F)) (cb : CircuitBreaker F)
      → cb.config ≡ c
      → cb.consecutive_failures ≡ n
      → is_rolled_back cb.state ≡ false
      → n < c.failure_window
      → trips es cb ≡ leb c.failure_window (peak n (findings c es))
  unfolding trips
  trips_from c n [] cb ec en r h = ground arith
  trips_from c n ((now, s) ∷ es) cb ec en r h =
      let armed : IsArmed cb = (r, rw (ec, en) h) in
      let cb' = (evaluate_and_check_trip fl now s cb).1 in
      let at_once : (evaluate_and_check_trip fl now s cb).0.tripped
          ≡ leb c.failure_window (advance n (finding c s)) =
        cc (evaluate_tripped now s cb armed) in
      elim (Bool-cases (evaluate_and_check_trip fl now s cb).0.tripped) [
        | inl tripped ↦
            rw tripped (ground (arith, at_once, le-peak (advance n (finding c s)) (findings c es)))
        | inr quiet ↦
            let (r', en', ec') = evaluate_counts now s cb armed quiet in
            let m = advance n (finding c s) in
            rw quiet (
              trips_from c m es cb' (ec' ∙ ec) (cc) r' (ground (arith, at_once))
              ∙ ground (arith, at_once, le-peak m (findings c es)))
      ]

  -- A breaker that is not rolled back and is short of its window trips within the evaluations given
  -- exactly when, at some moment, the breaches since the last healthy evaluation, those that it had
  -- counted before included and evaluations of too few requests left out, reach the failure window.
  pub trips-peak :
      (es : List (ℕ × Snapshot F)) (cb : CircuitBreaker F)
      → IsArmed cb
      → trips es cb
        ≡ leb cb.config.failure_window (peak cb.consecutive_failures (findings cb.config es))
  trips-peak es cb h = trips_from cb.config cb.consecutive_failures es cb refl refl h.0 h.1
