-- ===== src/Limiter/Isolation.antt =====
-- The tenants of the rate limiter share its global bucket and nothing else.
use ropus.Common.{
  ℕ, ◌≡◌, ◌≢◌, refl, inl, inr, Bool-cases, String, eq_iff, Bool, true, false, not, ◌&&◌, ◌||◌, List,
  [], ◌∷◌, All, ◌∙◌, arith,
}
use ropus.Common.Dict.{lookup, lookup-insert}
use ropus.Rollout.Float.{Floats}
use ropus.Limiter.{
  TenantBucket, TenantRateLimiter, Moments, tenant_or_default, set_enabled, bucket_of, allow,
  allow_tenant, after_global, allow_n,
}

pub data Call : Type 0 where
  requests : Moments → String → ℕ → Call
  enables : Bool → Call

abbrev pub IsOther : String → Call → Type 0
IsOther t (requests _ tenant _) = tenant_or_default tenant ≢ t
IsOther t (enables _) = Unit

module _ (fl : Floats) where
  open fl use {F}

  unfoldable pub call : Call → TenantRateLimiter F → TenantRateLimiter F
  call (requests now tenant n) rl = (allow_n fl now tenant n rl).1
  call (enables on) rl = set_enabled on rl

  unfoldable pub run : List Call → TenantRateLimiter F → TenantRateLimiter F
  run [] rl = rl
  run (c ∷ cs) rl = run cs (call c rl)

  global_others :
      (t : String) (now : Moments) (key : String) (n : ℕ) (answer : Bool × TenantBucket F)
      (rl : TenantRateLimiter F)
      → key ≢ t
      → let rl' = (after_global fl now key n answer rl).1 in
        (lookup t rl'.tenants ≡ lookup t rl.tenants) × (rl'.config ≡ rl.config)
  unfolding after_global allow_tenant bucket_of
  global_others t now key n (false, global) rl other = (refl, refl)
  global_others t now key n (true, global) rl other =
      let tb = (allow fl now.at_tenant n (bucket_of now.at_creation key rl)).1 in
      (ground (arith, eq_iff key t, lookup-insert key t tb rl.tenants), refl)

  call_others :
      (t : String) (c : Call) (rl : TenantRateLimiter F)
      → IsOther t c
      → (lookup t (call c rl).tenants ≡ lookup t rl.tenants) × ((call c rl).config ≡ rl.config)
  unfolding call allow_n set_enabled
  call_others t (enables on) rl other = (refl, refl)
  call_others t (requests now tenant n) rl other = elim (Bool-cases rl.enabled) [
    | inr off ↦ rw off (refl, refl)
    | inl on ↦
        let h =
          global_others t now (tenant_or_default tenant) n (allow fl now.at_global n rl.global) rl
            other in
        (ground (arith, h.0), ground (arith, h.1))
  ]

  run_others :
      (t : String) (cs : List Call) (rl : TenantRateLimiter F)
      → All (IsOther t) cs
      → (lookup t (run cs rl).tenants ≡ lookup t rl.tenants) × ((run cs rl).config ≡ rl.config)
  unfolding run
  run_others t [] rl others = (refl, refl)
  run_others t (c ∷ cs) rl others =
      let (same, config) = call_others t c rl others.0 in
      let (same', config') = run_others t cs (call c rl) others.1 in
      (same' ∙ same, config' ∙ config)

  global_answer :
      (now : Moments) (key : String) (n : ℕ) (answer : Bool × TenantBucket F)
      (rl' rl : TenantRateLimiter F)
      → lookup key rl'.tenants ≡ lookup key rl.tenants
      → rl'.config ≡ rl.config
      → (after_global fl now key n answer rl').0
        ≡ (answer.0 && (allow fl now.at_tenant n (bucket_of now.at_creation key rl)).0)
  unfolding after_global allow_tenant bucket_of
  global_answer now key n (false, global) rl' rl same config = refl
  global_answer now key n (true, global) rl' rl same config = rw (same, config) refl

  -- Isolation of tenants: after any calls for other tenants, and any switching of the limiter, a
  -- request of a tenant is allowed exactly when the limiter is off, or the global bucket of that
  -- moment lets it pass and the tenant's own bucket, as it was before those calls, does.
  pub tenant_isolation :
      (cs : List Call) (rl : TenantRateLimiter F) (now : Moments) (tenant : String) (n : ℕ)
      → All (IsOther (tenant_or_default tenant)) cs
      → let rl' = run cs rl in
        (allow_n fl now tenant n rl').0 ≡ (
          not rl'.enabled
          || ((allow fl now.at_global n rl'.global).0
              && (allow fl now.at_tenant n
                  (bucket_of now.at_creation (tenant_or_default tenant) rl)).0))
  unfolding allow_n
  tenant_isolation cs rl now tenant n others =
      let key = tenant_or_default tenant in
      let (same, config) = run_others key cs rl others in
      let h =
        global_answer now key n (allow fl now.at_global n (run cs rl).global) (run cs rl) rl same
          config in
      ground (arith, h)
