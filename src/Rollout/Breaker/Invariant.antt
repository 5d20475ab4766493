-- ===== src/Rollout/Breaker/Invariant.antt =====
-- What holds of the breaker between two calls, and what a tripped breaker does.
use ropus.Common.{
  ℕ, ◌+◌, ◌*◌, ◌<◌, ◌≡◌, ◌≢◌, refl, String, false, List, [], ◌∷◌, arith, if◌then◌else◌,
}
use ropus.Common.Int.{ℤ, pos, negsuc, or_default}
use ropus.Rollout.Float.{Floats}
use ropus.Rollout.Breaker.{
  healthy, warning, failed, rolling_back, rolled_back, CircuitBreakerConfig, CircuitBreaker,
  Snapshot, second, trip, reset, new_circuit_breaker, evaluate_and_check_trip,
}

pub record IsValid {F : Type 0} (cb : CircuitBreaker F) : Type 0 where
  pub has_window : 0 < cb.config.failure_window
  pub healthy_clean : cb.state ≡ healthy → cb.consecutive_failures ≡ 0
  pub failed_short :
      cb.state ≡ failed
      → (0 < cb.consecutive_failures) × (cb.consecutive_failures < cb.config.failure_window)
  pub no_warning : cb.state ≢ warning
  pub no_rolling_back : cb.state ≢ rolling_back

-- A call of a method that may write.
pub data Call (F : Type 0) : Type 0 where
  evaluate : ℕ → Snapshot F → Call F
  force : ℕ → String → Call F
  clear : Call F

or_default_pos : (d : ℕ) (x : ℤ) → 0 < or_default (d + 1) x
or_default_pos d (pos n) = ground arith
or_default_pos d (negsuc n) = omega arith

module _ (fl : Floats) where
  open fl use {F}

  unfoldable pub call : Call F → CircuitBreaker F → CircuitBreaker F
  call (evaluate now s) cb = (evaluate_and_check_trip fl now s cb).1
  call (force now reason) cb = trip now reason cb
  call clear cb = reset cb

  pub run : List (Call F) → CircuitBreaker F → CircuitBreaker F
  run [] cb = cb
  run (c ∷ cs) cb = run cs (call c cb)

  -- The trips among the calls: the forced ones, and the evaluations that report one.
  pub trip_count : List (Call F) → CircuitBreaker F → ℕ
  trip_count [] cb = 0
  trip_count (evaluate now s ∷ cs) cb =
      let rest = trip_count cs (call (evaluate now s) cb) in
      if (evaluate_and_check_trip fl now s cb).0.tripped then rest + 1 else rest
  trip_count (force now reason ∷ cs) cb = trip_count cs (call (force now reason) cb) + 1
  trip_count (clear ∷ cs) cb = trip_count cs (call clear cb)

  new-IsValid : (cfg : CircuitBreakerConfig F) → IsValid (new_circuit_breaker fl cfg)
  unfolding new_circuit_breaker
  new-IsValid cfg = record {
    has_window = or_default_pos 2 cfg.failure_window;
    healthy_clean = λ e. refl;
    failed_short = λ e. cc;
    no_warning = λ e. cc;
    no_rolling_back = λ e. cc;
  }

  call-IsValid : (c : Call F) (cb : CircuitBreaker F) → IsValid cb → IsValid (call c cb)
  unfolding call evaluate_and_check_trip trip reset
  call-IsValid (evaluate now s) cb h = ground arith
  call-IsValid (force now reason) cb h = ground arith
  call-IsValid clear cb h = ground arith

  run-IsValid : (cs : List (Call F)) (cb : CircuitBreaker F) → IsValid cb → IsValid (run cs cb)
  unfolding run
  run-IsValid [] cb h = h
  run-IsValid (c ∷ cs) cb h = run-IsValid cs (call c cb) (call-IsValid c cb h)

  -- Whatever the configuration and the calls: a healthy breaker has no failure on record, a failed
  -- one has some and fewer than its window, the window is positive, and the states `warning` and
  -- `rolling_back` are never entered.
  pub run_new-IsValid :
      (cfg : CircuitBreakerConfig F) (cs : List (Call F))
      → IsValid (run cs (new_circuit_breaker fl cfg))
  run_new-IsValid cfg cs = run-IsValid cs (new_circuit_breaker fl cfg) (new-IsValid cfg)

  pub tripped_count-evaluate :
      (now : ℕ) (s : Snapshot F) (cb : CircuitBreaker F)
      → (evaluate_and_check_trip fl now s cb).1.tripped_count ≡ (
          if (evaluate_and_check_trip fl now s cb).0.tripped
          then cb.tripped_count + 1
          else cb.tripped_count)
  unfolding evaluate_and_check_trip
  tripped_count-evaluate now s cb = ground arith

  -- The counter of the breaker rises by exactly the number of trips, reported and forced.
  pub tripped_count-run :
      (cs : List (Call F)) (cb : CircuitBreaker F)
      → (run cs cb).tripped_count ≡ cb.tripped_count + trip_count cs cb
  unfolding run trip_count call trip reset
  tripped_count-run [] cb = omega arith
  tripped_count-run (evaluate now s ∷ cs) cb =
      ground
        (arith, tripped_count-run cs (call (evaluate now s) cb), tripped_count-evaluate now s cb)
  tripped_count-run (force now reason ∷ cs) cb =
      omega (arith, tripped_count-run cs (call (force now reason) cb))
  tripped_count-run (clear ∷ cs) cb = omega (arith, tripped_count-run cs (call clear cb))

  -- A rolled back breaker holds through its cool-down: an evaluation reports the stored reason and
  -- no trip, and changes nothing.
  pub evaluate_in_cooldown :
      (now : ℕ) (s : Snapshot F) (cb : CircuitBreaker F)
      → cb.state ≡ rolled_back
      → now < cb.last_tripped_at + cb.config.cooldown_seconds * second
      → let (v, cb') = evaluate_and_check_trip fl now s cb in
        (v.tripped ≡ false)
        × (v.state ≡ rolled_back)
        × (v.reason ≡ cb.last_trip_reason)
        × (cb' ≡ cb)
  unfolding evaluate_and_check_trip
  evaluate_in_cooldown now s cb e h = ground arith
