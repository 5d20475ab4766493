-- ===== src/Examples/Limiter.antt =====
-- Tests of rate_limiter.go, over the natural numbers of the rollout's tests.
use ropus.Common.{ℕ, ◌≡◌, refl, eq_iff, true, false, not, ◌&&◌, ◌||◌, List, [], ◌∷◌, arith}
use ropus.Limiter.{
  TenantRateLimiterConfig, TenantRateLimiter, Moments, new_tenant_bucket, new_tenant_rate_limiter,
  existing_or, bucket_of, allow, allow_tenant, after_global, allow_n, allow_request,
}
use ropus.Limiter.Isolation.{Call, requests, enables, run, tenant_isolation}
use ropus.Examples.Rollout.{hundredths}

abbrev config : TenantRateLimiterConfig ℕ
config = record {
  default_rate_per_sec = 100;
  default_burst_cap = 200;
  global_rate_per_sec = 1000;
  global_burst_cap = 300;
  cleanup_interval = 0;
}

abbrev limiter : TenantRateLimiter ℕ
limiter = new_tenant_rate_limiter 0 config

abbrev now : Moments
now = record { at_global = 0; at_creation = 0; at_tenant = 0 }

-- A request that its tenant's bucket refuses has taken its tokens from the global bucket.
refusal_costs_all :
    ((allow_n hundredths now "a" 3 limiter).0 ≡ false)
    × ((allow_n hundredths now "a" 3 limiter).1.global.tokens ≡ 0)
unfolding new_tenant_rate_limiter new_tenant_bucket existing_or bucket_of allow allow_tenant
    after_global allow_n
refusal_costs_all = (refl, refl)

allows_first : (allow_request hundredths now "a" limiter).0 ≡ true
unfolding new_tenant_rate_limiter new_tenant_bucket existing_or bucket_of allow allow_tenant
    after_global allow_n allow_request
allows_first = refl

abbrev others : List Call
others = requests now "a" 2 ∷ enables false ∷ requests now "" 1 ∷ enables true ∷ []

tenant_isolation_example :
    let rl = run hundredths others limiter in
    (allow_n hundredths now "b" 1 rl).0 ≡ (
      not rl.enabled
      || ((allow hundredths now.at_global 1 rl.global).0
          && (allow hundredths now.at_tenant 1 (bucket_of now.at_creation "b" limiter)).0))
tenant_isolation_example =
    tenant_isolation hundredths others limiter now "b" 1
      (ground (arith, eq_iff "a" "b"), (tt, (ground (arith, eq_iff "default" "b"), (tt, tt))))
