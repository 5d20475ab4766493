-- ===== src/Rollout/Router/Routing.antt =====
-- `Route` of canary_router.go: which transactions go to the candidate model.
use ropus.Common.{ℕ, ◌≤◌, ◌<◌, ◌≡◌, ◌↔◌, String, Bool, true, false, arith}
use ropus.Common.Int.{ℤ, pos}
use ropus.Rollout.Float.{Floats}
use ropus.Rollout.Breaker.{is_rolled_back, reset}
use ropus.Rollout.Router.{
  CanaryRouter, route_legacy, route_candidate, bucket, route, is_admin, update_config,
}

module _ {F : Type 0} (digest : String → ℕ) (tenant txn : String) where
  -- A transaction goes to the candidate exactly when the breaker is not rolled back, the rollout is
  -- enabled and the bucket of the transaction, a number below 100, is less than the percentage.
  pub route_iff :
      (cr : CanaryRouter F)
      → (route digest tenant txn cr ≡ route_candidate) ↔ (
          (is_rolled_back cr.circuit_breaker.state ≡ false)
          × (cr.config.enabled ≡ true)
          × (bucket digest tenant txn < cr.config.percentage))
  unfolding route
  route_iff cr = (λ h. ground arith, λ h. ground arith)

  -- Raising the percentage, with nothing else changed, takes no transaction away from the
  -- candidate.
  pub route_sticky :
      (p : ℕ) (cr : CanaryRouter F)
      → cr.config.percentage ≤ p
      → route digest tenant txn cr ≡ route_candidate
      → route digest tenant txn (record cr { config = record (cr.config) { percentage = p } })
        ≡ route_candidate
  unfolding route
  route_sticky p cr h q = ground arith

module _ (fl : Floats) (digest : String → ℕ) (tenant txn : String) where
  open fl use {F}

  -- While the breaker is rolled back, an update by anyone but an administrator sends no traffic to
  -- the candidate, whatever percentage is asked for.
  pub update_config_not_admin :
      (enabled : Bool) (pct : ℤ) (actor reason : String) (cr : CanaryRouter F)
      → is_admin actor ≡ false
      → is_rolled_back cr.circuit_breaker.state ≡ true
      → route digest tenant txn (update_config fl enabled pct actor reason cr).1 ≡ route_legacy
  unfolding route update_config
  update_config_not_admin enabled pct actor reason cr a h = ground arith

  -- An administrator who sets a percentage of 100 and enables the rollout sends every transaction
  -- to the candidate, also where the breaker was rolled back.
  pub update_config_admin :
      (actor reason : String) (cr : CanaryRouter F)
      → is_admin actor ≡ true
      → route digest tenant txn (update_config fl true (pos 100) actor reason cr).1
        ≡ route_candidate
  unfolding route update_config reset
  update_config_admin actor reason cr a = ground arith
