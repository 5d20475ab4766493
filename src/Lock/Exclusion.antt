-- ===== src/Lock/Exclusion.antt =====
-- Mutual exclusion and fencing of the local lock, over any sequence of calls.
use ropus.Common.{
  ℕ, ◌+◌, ◌≤◌, ◌<◌, ◌≡◌, ◌≢◌, ◌⊎◌, inl, inr, Option-cases, refl, String, eq_iff, some, List, [],
  ◌∷◌, All, arith,
}
use ropus.Common.Dict.{lookup, erase, IsMap, lookup-insert, lookup-erase, insert-IsMap, erase-IsMap}
use ropus.Lock.Local.{
  LockLease, LocalLockEntry, LocalDistributedLock, ok, err, lock_held, invalid_lease, acquire,
  release, extend,
}

-- A call, with the time that it reads and the token that it draws.
pub data Call : Type 0 where
  acquires : ℕ → String → String → String → ℕ → Call
  releases : LockLease → Call
  extends : ℕ → LockLease → ℕ → Call

unfoldable pub call : Call → LocalDistributedLock → LocalDistributedLock
call (acquires now token key owner ttl) l = (acquire now token key owner ttl l).1
call (releases lease) l = (release (some lease) l).1
call (extends now lease extra) l = (extend now (some lease) extra l).1

unfoldable pub run : List Call → LocalDistributedLock → LocalDistributedLock
run [] l = l
run (c ∷ cs) l = run cs (call c l)

pub call-IsMap : (c : Call) (l : LocalDistributedLock) → IsMap l.locks → IsMap (call c l).locks
unfolding call acquire release extend
call-IsMap (acquires now token key owner ttl) l h =
    let e : LocalLockEntry = record { token = token; owner_id = owner; expires_at = now + ttl } in
    ground (
      arith,
      insert-IsMap key e l.locks h,
      erase-IsMap key l.locks h,
      insert-IsMap key e (erase key l.locks),
    )
call-IsMap (releases lease) l h = ground (arith, erase-IsMap lease.resource_key l.locks h)
call-IsMap (extends now lease extra) l h = elim (Option-cases (lookup lease.resource_key l.locks)) [
  | inl gone ↦ ground arith
  | inr (e, found) ↦ ground (
    arith,
    insert-IsMap lease.resource_key (record e { expires_at = e.expires_at + extra }) l.locks h,
  )
]

-- The lock on `key` is held under `token` until `expiry` at least.
abbrev pub IsHeld : String → String → ℕ → LocalDistributedLock → Type 0
IsHeld key token expiry l =
    (e : LocalLockEntry) × (lookup key l.locks ≡ some e)
    × (e.token ≡ token)
    × (expiry ≤ e.expires_at)

-- A call of somebody else before `expiry`: it presents no lease with this key and token.
abbrev pub IsForeign : String → String → ℕ → Call → Type 0
IsForeign key token expiry (acquires now _ _ _ _) = now < expiry
IsForeign key token expiry (releases lease) = (lease.resource_key ≢ key) ⊎ (lease.token ≢ token)
IsForeign key token expiry (extends _ lease _) = (lease.resource_key ≢ key) ⊎ (lease.token ≢ token)

module _ (key token : String) (expiry : ℕ) where
  acquire_blocked :
      (now : ℕ) (t k owner : String) (ttl : ℕ) (l : LocalDistributedLock)
      → IsMap l.locks
      → now < expiry
      → (e : LocalLockEntry) → lookup key l.locks ≡ some e
      → expiry ≤ e.expires_at
      → lookup key (call (acquires now t k owner ttl) l).locks ≡ some e
  unfolding call acquire
  acquire_blocked now t k owner ttl l m f e found late =
      let x : LocalLockEntry = record { token = t; owner_id = owner; expires_at = now + ttl } in
      ground (
        arith,
        eq_iff k key,
        lookup-insert k key x l.locks,
        lookup-insert k key x (erase k l.locks),
        lookup-erase k key l.locks m,
      )

  release_blocked :
      (lease : LockLease) (l : LocalDistributedLock)
      → IsMap l.locks
      → (lease.resource_key ≢ key) ⊎ (lease.token ≢ token)
      → (e : LocalLockEntry) → lookup key l.locks ≡ some e
      → e.token ≡ token
      → lookup key (call (releases lease) l).locks ≡ some e
  unfolding call release
  release_blocked lease l m f e found same = ground (
    arith,
    eq_iff lease.resource_key key,
    eq_iff e.token lease.token,
    lookup-erase lease.resource_key key l.locks m,
  )

  extend_blocked :
      (now : ℕ) (lease : LockLease) (extra : ℕ) (l : LocalDistributedLock)
      → (lease.resource_key ≢ key) ⊎ (lease.token ≢ token)
      → (e : LocalLockEntry) → lookup key l.locks ≡ some e
      → e.token ≡ token
      → lookup key (call (extends now lease extra) l).locks ≡ some e
  unfolding call extend
  extend_blocked now lease extra l f e found same =
      elim (Option-cases (lookup lease.resource_key l.locks)) [
        | inl gone ↦ ground arith
        | inr (w, there) ↦ ground (
          arith,
          eq_iff lease.resource_key key,
          eq_iff w.token lease.token,
          lookup-insert lease.resource_key key (record w { expires_at = w.expires_at + extra })
              l.locks,
        )
      ]

  call-IsHeld :
      (c : Call) (l : LocalDistributedLock)
      → IsMap l.locks
      → IsForeign key token expiry c
      → IsHeld key token expiry l
      → IsHeld key token expiry (call c l)
  unfolding call acquire release extend
  call-IsHeld (acquires now t k owner ttl) l m f (e, found, same, late) =
      (e, acquire_blocked now t k owner ttl l m f e found late, same, late)
  call-IsHeld (releases lease) l m f (e, found, same, late) =
      (e, release_blocked lease l m f e found same, same, late)
  call-IsHeld (extends now lease extra) l m f (e, found, same, late) =
      (e, extend_blocked now lease extra l f e found same, same, late)

  run-IsHeld :
      (cs : List Call) (l : LocalDistributedLock)
      → IsMap l.locks
      → All (IsForeign key token expiry) cs
      → IsHeld key token expiry l
      → IsHeld key token expiry (run cs l)
  unfolding run
  run-IsHeld [] l m f h = h
  run-IsHeld (c ∷ cs) l m f h =
      run-IsHeld cs (call c l) (call-IsMap c l m) f.1 (call-IsHeld c l m f.0 h)

grant-IsHeld :
    (now : ℕ) (token key owner : String) (ttl : ℕ) (l : LocalDistributedLock) {lease : LockLease}
    → (acquire now token key owner ttl l).0 ≡ ok lease
    → IsHeld key token (now + ttl) (acquire now token key owner ttl l).1
unfolding acquire
grant-IsHeld now token key owner ttl l h =
    let x : LocalLockEntry = record { token = token; owner_id = owner; expires_at = now + ttl } in
    (
      x,
      ground (
        arith,
        eq_iff key key,
        lookup-insert key key x l.locks,
        lookup-insert key key x (erase key l.locks),
      ),
      refl,
      omega arith,
    )

held_refuses :
    (now : ℕ) (token key owner : String) (ttl : ℕ) (l : LocalDistributedLock) (other : String)
    (expiry : ℕ)
    → now < expiry
    → IsHeld key other expiry l
    → (acquire now token key owner ttl l).0 ≡ err lock_held
unfolding acquire
held_refuses now token key owner ttl l other expiry q (e, found, same, late) = ground arith

-- Mutual exclusion: once a lock has been granted, whatever calls follow, as long as nobody presents
-- a lease with its token and the clock is before the end of the lease, every further attempt to
-- acquire the same resource is refused as held.
pub acquire_excludes :
    (now : ℕ) (token key owner : String) (ttl : ℕ) (l : LocalDistributedLock) {lease : LockLease}
    (cs : List Call) (later : ℕ) (token' owner' : String) (ttl' : ℕ)
    → IsMap l.locks
    → (acquire now token key owner ttl l).0 ≡ ok lease
    → All (IsForeign key token (now + ttl)) cs
    → later < now + ttl
    → (acquire later token' key owner' ttl' (run cs (acquire now token key owner ttl l).1)).0
      ≡ err lock_held
acquire_excludes now token key owner ttl l cs later token' owner' ttl' m h f q =
    held_refuses later token' key owner' ttl' _ token (now + ttl) q (
      run-IsHeld key token (now + ttl) cs (acquire now token key owner ttl l).1
        (unfold call in call-IsMap (acquires now token key owner ttl) l m) f
        (grant-IsHeld now token key owner ttl l h))

held_fences :
    (key token : String) (expiry : ℕ) (l : LocalDistributedLock) (old : LockLease) (later extra : ℕ)
    → IsHeld key token expiry l
    → old.resource_key ≡ key
    → old.token ≢ token
    → (release (some old) l ≡ (err invalid_lease, l))
      × (extend later (some old) extra l ≡ (err invalid_lease, l))
unfolding release extend
held_fences key token expiry l old later extra (e, found, mine, late) same other =
    let there : lookup old.resource_key l.locks ≡ some e = rw same found in
    (ground (arith, eq_iff e.token old.token), ground (arith, eq_iff e.token old.token))

-- Fencing: a lease whose resource has been granted again, under another token, can neither release
-- nor extend the lock, and its attempts change nothing.
pub stale_lease :
    (now : ℕ) (token key owner : String) (ttl : ℕ) (l : LocalDistributedLock) {lease : LockLease}
    (old : LockLease) (later extra : ℕ)
    → (acquire now token key owner ttl l).0 ≡ ok lease
    → old.resource_key ≡ key
    → old.token ≢ token
    → let l' = (acquire now token key owner ttl l).1 in
      (release (some old) l' ≡ (err invalid_lease, l'))
      × (extend later (some old) extra l' ≡ (err invalid_lease, l'))
stale_lease now token key owner ttl l old later extra h same other =
    held_fences key token (now + ttl) _ old later extra (grant-IsHeld now token key owner ttl l h)
      same other
