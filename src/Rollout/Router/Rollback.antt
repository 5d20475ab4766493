-- ===== src/Rollout/Router/Rollback.antt =====
-- The automatic rollback of canary_router.go, over any sequence of recorded outcomes, and the
-- bounds of the percentage.
use ropus.Common.{ℕ, ◌≡◌, ◌≢◌, refl, String, List, [], ◌∷◌, arith}
use ropus.Rollout.Float.{Floats}
use ropus.Rollout.Breaker.Invariant.{tripped_count-evaluate}
use ropus.Rollout.Metrics.{snapshot}
use ropus.Rollout.Router.{
  CanaryRouter, route_legacy, route, check_circuit_breaker, record_legacy_request,
  record_candidate_request, record_decision_changed, record_candidate_success,
  record_candidate_fallback, record_candidate_error,
}

-- A call that records what became of a request.
pub data Outcome (F : Type 0) : Type 0 where
  legacy_request candidate_request decision_changed : Outcome F
  success : ℕ → F → String → Outcome F
  fallback : ℕ → F → Outcome F
  error : ℕ → Outcome F

module _ (fl : Floats) where
  open fl use {F}

  unfoldable pub observe : Outcome F → CanaryRouter F → CanaryRouter F
  observe legacy_request cr = record_legacy_request cr
  observe candidate_request cr = record_candidate_request cr
  observe decision_changed cr = record_decision_changed cr
  observe (success now latency d) cr = record_candidate_success fl now latency d cr
  observe (fallback now latency) cr = record_candidate_fallback fl now latency cr
  observe (error now) cr = record_candidate_error fl now cr

  unfoldable pub observe_all : List (Outcome F) → CanaryRouter F → CanaryRouter F
  observe_all [] cr = cr
  observe_all (o ∷ os) cr = observe_all os (observe o cr)

  abbrev pub IsOff : CanaryRouter F → Type 0
  IsOff cr = cr.config.percentage ≡ 0

  check_circuit_breaker-IsOff :
      (now : ℕ) (cr : CanaryRouter F) → IsOff cr → IsOff (check_circuit_breaker fl now cr)
  unfolding check_circuit_breaker
  check_circuit_breaker-IsOff now cr h = ground arith

  observe-IsOff : (o : Outcome F) (cr : CanaryRouter F) → IsOff cr → IsOff (observe o cr)
  unfolding observe record_legacy_request record_candidate_request record_decision_changed
      record_candidate_success record_candidate_fallback record_candidate_error
  observe-IsOff legacy_request cr h = h
  observe-IsOff candidate_request cr h = h
  observe-IsOff decision_changed cr h = h
  observe-IsOff (success now latency d) cr h = check_circuit_breaker-IsOff now _ h
  observe-IsOff (fallback now latency) cr h = check_circuit_breaker-IsOff now _ h
  observe-IsOff (error now) cr h = check_circuit_breaker-IsOff now _ h

  observe_all-IsOff :
      (os : List (Outcome F)) (cr : CanaryRouter F) → IsOff cr → IsOff (observe_all os cr)
  unfolding observe_all
  observe_all-IsOff [] cr h = h
  observe_all-IsOff (o ∷ os) cr h = observe_all-IsOff os (observe o cr) (observe-IsOff o cr h)

  check_circuit_breaker_trips :
      (now : ℕ) (cr : CanaryRouter F)
      → (check_circuit_breaker fl now cr).circuit_breaker.tripped_count
        ≢ cr.circuit_breaker.tripped_count
      → IsOff (check_circuit_breaker fl now cr)
  unfolding check_circuit_breaker
  check_circuit_breaker_trips now cr h =
      ground (arith, tripped_count-evaluate fl now (snapshot fl cr.metrics) cr.circuit_breaker)

  observe_trips :
      (o : Outcome F) (cr : CanaryRouter F)
      → (observe o cr).circuit_breaker.tripped_count ≢ cr.circuit_breaker.tripped_count
      → IsOff (observe o cr)
  unfolding observe record_legacy_request record_candidate_request record_decision_changed
      record_candidate_success record_candidate_fallback record_candidate_error
  observe_trips legacy_request cr h = absurd (h refl)
  observe_trips candidate_request cr h = absurd (h refl)
  observe_trips decision_changed cr h = absurd (h refl)
  observe_trips (success now latency d) cr h = check_circuit_breaker_trips now _ h
  observe_trips (fallback now latency) cr h = check_circuit_breaker_trips now _ h
  observe_trips (error now) cr h = check_circuit_breaker_trips now _ h

  route-IsOff :
      (digest : String → ℕ) (tenant txn : String) (cr : CanaryRouter F)
      → IsOff cr
      → route digest tenant txn cr ≡ route_legacy
  unfolding route
  route-IsOff digest tenant txn cr h = ground arith

  -- Once a recorded outcome has tripped the breaker, every transaction goes to the legacy model,
  -- whatever outcomes are recorded after it and however much time passes.
  pub rollback_holds :
      (o : Outcome F) (os : List (Outcome F)) (cr : CanaryRouter F)
      → (observe o cr).circuit_breaker.tripped_count ≢ cr.circuit_breaker.tripped_count
      → (digest : String → ℕ) (tenant txn : String)
      → route digest tenant txn (observe_all os (observe o cr)) ≡ route_legacy
  rollback_holds o os cr h digest tenant txn =
      route-IsOff digest tenant txn _ (observe_all-IsOff os (observe o cr) (observe_trips o cr h))
