-- ===== src/Limiter.antt =====
-- The rate limiter of tenants: backend/internal/riskengine/rate_limiter.go. A request's numbers of
-- tokens are not negative, the clock does not go back, and a call is one step from the test of
-- `enabled` to its answer, with the three moments at which it reads the clock.
use ropus.Common.{
  ℕ, ◌-◌, ◌≡◌, String, str_eq, Bool, true, false, not, ◌&&◌, ◌||◌, Option, none, some, List, [],
  ◌∷◌, if◌then◌else◌,
}
use ropus.Common.Dict.{Dict, lookup, insert}
use ropus.Rollout.Float.{Floats}
pub mod Isolation

pub record TenantBucket (F : Type 0) : Type 0 where
  pub tokens : F
  pub capacity : F
  pub refill_rate : F
  pub last_refill : ℕ

pub record TenantRateLimiterConfig (F : Type 0) : Type 0 where
  pub default_rate_per_sec : F
  pub default_burst_cap : F
  pub global_rate_per_sec : F
  pub global_burst_cap : F
  pub cleanup_interval : ℕ

pub record TenantRateLimiter (F : Type 0) : Type 0 where
  pub config : TenantRateLimiterConfig F
  pub global : TenantBucket F
  pub tenants : Dict (TenantBucket F)
  pub enabled : Bool

-- The moments of one call: the global bucket's, the new bucket's and the tenant bucket's.
pub record Moments : Type 0 where
  pub at_global : ℕ
  pub at_creation : ℕ
  pub at_tenant : ℕ

abbrev pub tenant_or_default : String → String
tenant_or_default t = if str_eq t "" then "default" else t

module _ {F : Type 0} where
  unfoldable pub new_tenant_bucket : ℕ → F → F → TenantBucket F
  new_tenant_bucket now rate burst = record {
    tokens = burst;
    capacity = burst;
    refill_rate = rate;
    last_refill = now;
  }

  unfoldable pub new_tenant_rate_limiter : ℕ → TenantRateLimiterConfig F → TenantRateLimiter F
  new_tenant_rate_limiter now cfg = record {
    config = cfg;
    global = new_tenant_bucket now cfg.global_rate_per_sec cfg.global_burst_cap;
    tenants = [];
    enabled = true;
  }

  unfoldable pub set_enabled : Bool → TenantRateLimiter F → TenantRateLimiter F
  set_enabled on rl = record rl { enabled = on }

  unfoldable pub existing_or : TenantBucket F → Option (TenantBucket F) → TenantBucket F
  existing_or made none = made
  existing_or made (some b) = b

  -- The tenant's bucket, made where it is missing.
  unfoldable pub bucket_of : ℕ → String → TenantRateLimiter F → TenantBucket F
  bucket_of now t rl =
      existing_or (new_tenant_bucket now rl.config.default_rate_per_sec rl.config.default_burst_cap)
        (lookup t rl.tenants)

module _ (fl : Floats) where
  open fl use {F, is_gt, is_ge, add, sub, mul, of_int, seconds}

  refilled : ℕ → TenantBucket F → TenantBucket F
  refilled now tb =
      let grown = add tb.tokens (mul (seconds (now - tb.last_refill)) tb.refill_rate) in
      record tb {
        last_refill = now;
        tokens = if is_gt grown tb.capacity then tb.capacity else grown;
      }

  unfoldable pub allow : ℕ → ℕ → TenantBucket F → Bool × TenantBucket F
  unfolding refilled
  allow now n tb =
      let full = refilled now tb in
      if is_ge full.tokens (of_int n)
      then (true, record full { tokens = sub full.tokens (of_int n) })
      else (false, full)

  -- The tenant's part of `AllowN`, once the global bucket has let the request pass.
  unfoldable pub allow_tenant :
      Moments → String → ℕ → TenantRateLimiter F → Bool × TenantRateLimiter F
  allow_tenant now t n rl =
      let (ok, tb) = allow now.at_tenant n (bucket_of now.at_creation t rl) in
      (ok, record rl { tenants = insert t tb rl.tenants })

  unfoldable pub after_global :
      Moments
      → String
      → ℕ
      → Bool × TenantBucket F
      → TenantRateLimiter F
      → Bool × TenantRateLimiter F
  after_global now t n (false, global) rl = (false, record rl { global = global })
  after_global now t n (true, global) rl = allow_tenant now t n (record rl { global = global })

  unfoldable pub allow_n : Moments → String → ℕ → TenantRateLimiter F → Bool × TenantRateLimiter F
  allow_n now tenant n rl =
      let answer = allow now.at_global n rl.global in
      if not rl.enabled then (true, rl) else after_global now (tenant_or_default tenant) n answer rl

  -- `Allow`
  unfoldable pub allow_request : Moments → String → TenantRateLimiter F → Bool × TenantRateLimiter F
  allow_request now tenant rl = allow_n now tenant 1 rl
