-- ===== src/Lock/Remote.antt =====
-- `RedisDistributedLock` of distributed_lock.go. The Redis server is a parameter with the documented
-- behaviour of its commands; the two Lua scripts are part of the source.
use ropus.Common.{
  ℕ, ◌+◌, ◌*◌, ◌/◌, ◌<◌, ◌≡◌, ◌≢◌, String, ◌<>◌, str_eq, Bool, true, false, Option, none, some,
  arith, Bool-cases, inl, inr, ◌==◌, if◌then◌else◌,
}
use ropus.Lock.Local.{
  LockLease, Result, ok, err, lock_held, lock_expired, invalid_lease, store_offline, store_error,
}

-- `get now k s` is the value of the key at that moment, and `deadline k s` the moment at which a key
-- that is there expires. PEXPIRE counts its milliseconds from the present moment.
pub record Redis : Type 1 where
  pub State : Type 0
  pub get : ℕ → String → State → Option String
  pub deadline : String → State → ℕ
  pub del : String → State → State
  pub pexpire : ℕ → String → ℕ → State → State
  pub set_nx : ℕ → String → String → ℕ → State → Bool × State
  pub deadline-pexpire :
      (now : ℕ) (k : String) (ms : ℕ) (s : State)
      → get now k s ≢ none
      → deadline k (pexpire now k ms s) ≡ now + ms * 1000000

-- The scripts' test `redis.call("get", KEYS[1]) == ARGV[1]`; a missing key is false there.
unfoldable pub is_stored : String → Option String → Bool
is_stored token none = false
is_stored token (some t) = str_eq t token

is_stored_present : (token : String) (o : Option String) → is_stored token o ≡ true → o ≢ none
unfolding is_stored
is_stored_present token none h = ground arith
is_stored_present token (some t) h = ground arith

module _ (redis : Redis) where
  open redis use {State, get, deadline, del, pexpire, set_nx, deadline-pexpire}

  -- A call to the server: it fails and leaves some state, or it is carried out.
  abbrev Fault : Type 0
  Fault = Option State

  abbrev lock_key : String → String
  lock_key resource = "lock:" <> resource

  -- The lease of a granted lock.
  abbrev lease_of : ℕ → String → String → String → ℕ → LockLease
  lease_of now token resource owner ttl = record {
    resource_key = resource;
    token = token;
    owner_id = owner;
    acquired_at = now;
    expires_at = now + ttl;
  }

  -- The client is nil where `connected` is false.
  unfoldable pub acquire_remote :
      Bool → Fault → ℕ → String → String → String → ℕ → State → Result LockLease × State
  acquire_remote false fault now token resource owner ttl s = (err store_offline, s)
  acquire_remote true (some s') now token resource owner ttl s = (err store_error, s')
  acquire_remote true none now token resource owner ttl s =
      let (set, s') = set_nx now (lock_key resource) token ttl s in
      if set then (ok (lease_of now token resource owner ttl), s') else (err lock_held, s')

  abbrev holds : ℕ → String → String → State → Bool
  holds now key token s = is_stored token (get now key s)

  -- `releaseLuaScript`; DEL counts the key that GET has found.
  release_script : ℕ → String → String → State → ℕ × State
  release_script now key token s = if holds now key token s then (1, del key s) else (0, s)

  -- `extendLuaScript`
  extend_script : ℕ → String → String → ℕ → State → ℕ × State
  extend_script now key token ms s =
      if holds now key token s then (1, pexpire now key ms s) else (0, s)

  unfoldable pub release_remote :
      Bool → Fault → ℕ → Option LockLease → State → Result (Unit {0}) × State
  unfolding release_script
  release_remote false fault now lease s = (err store_offline, s)
  release_remote true fault now none s = (err invalid_lease, s)
  release_remote true (some s') now (some lease) s = (err store_error, s')
  release_remote true none now (some lease) s =
      let (count, s') = release_script now (lock_key lease.resource_key) lease.token s in
      (if count == 0 then err invalid_lease else ok tt, s')

  -- `extraTTL.Milliseconds()` drops what is below a millisecond. The lease is written through its
  -- pointer: the new one is the result.
  unfoldable pub extend_remote :
      Bool → Fault → ℕ → Option LockLease → ℕ → State → Result LockLease × State
  unfolding extend_script
  extend_remote false fault now lease extra s = (err store_offline, s)
  extend_remote true fault now none extra s = (err invalid_lease, s)
  extend_remote true (some s') now (some lease) extra s = (err store_error, s')
  extend_remote true none now (some lease) extra s =
      let (count, s') =
        extend_script now (lock_key lease.resource_key) lease.token (extra / 1000000) s in
      (
        if count == 0
            then err lock_expired
            else ok (record lease { expires_at = lease.expires_at + extra }),
        s',
      )

  -- An extension that reaches the server and succeeds, before the lease has run out, leaves the lease
  -- with a later end than the server's: the server counts the extension from the present moment, and
  -- the lease from its former end.
  pub extend_remote_overstates :
      (now : ℕ) (lease : LockLease) (extra : ℕ) (s : State) {renewed : LockLease}
      → now < lease.expires_at
      → (extend_remote true none now (some lease) extra s).0 ≡ ok renewed
      → deadline (lock_key lease.resource_key) (extend_remote true none now (some lease) extra s).1
        < renewed.expires_at
  unfolding extend_remote extend_script
  extend_remote_overstates now lease extra s {renewed} q h =
      let key = lock_key lease.resource_key in
      elim (Bool-cases (holds now key lease.token s)) [
        | inl e ↦
            let d =
              deadline-pexpire now key (extra / 1000000) s
                (is_stored_present lease.token (get now key s) e) in
            ground arith
        | inr e ↦ ground arith
      ]
