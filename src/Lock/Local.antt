-- ===== src/Lock/Local.antt =====
-- `LockLease` and `LocalDistributedLock` of distributed_lock.go.
use ropus.Common.{
  ℕ, ◌+◌, String, str_eq, Bool, true, not, Option, none, some, [], ltb, if◌then◌else◌,
}
use ropus.Common.Dict.{Dict, lookup, insert, erase}

pub data LockError : Type 0 where
  lock_held lock_expired invalid_lease store_offline store_error : LockError

pub record LockLease : Type 0 where
  pub resource_key : String
  pub token : String
  pub owner_id : String
  pub acquired_at : ℕ
  pub expires_at : ℕ

unfoldable pub is_expired : ℕ → LockLease → Bool
is_expired now l = ltb l.expires_at now

pub record LocalLockEntry : Type 0 where
  pub token : String
  pub owner_id : String
  pub expires_at : ℕ

pub record LocalDistributedLock : Type 0 where
  pub locks : Dict LocalLockEntry
  pub acquired_count : ℕ
  pub released_count : ℕ
  pub conflict_count : ℕ

pub data Result (A : Type 0) : Type 0 where
  ok : A → Result A
  err : LockError → Result A

unfoldable pub new_local : LocalDistributedLock
new_local = record { locks = []; acquired_count = 0; released_count = 0; conflict_count = 0 }

-- The grant of a lock on a resource that the map does not hold.
abbrev grant :
    ℕ
    → String
    → String
    → String
    → ℕ
    → LocalDistributedLock
    → Result LockLease × LocalDistributedLock
grant now token key owner ttl l = (
  ok (record {
    resource_key = key;
    token = token;
    owner_id = owner;
    acquired_at = now;
    expires_at = now + ttl;
  }),
  record l {
    locks = insert key (record { token = token; owner_id = owner; expires_at = now + ttl }) l.locks;
    acquired_count = l.acquired_count + 1;
  },
)

acquire_found :
    ℕ
    → String
    → String
    → String
    → ℕ
    → Option LocalLockEntry
    → LocalDistributedLock
    → Result LockLease × LocalDistributedLock
acquire_found now token key owner ttl none l = grant now token key owner ttl l
acquire_found now token key owner ttl (some entry) l =
    if ltb now entry.expires_at
    then (err lock_held, record l { conflict_count = l.conflict_count + 1 })
    else grant now token key owner ttl (record l { locks = erase key l.locks })

unfoldable pub acquire :
    ℕ
    → String
    → String
    → String
    → ℕ
    → LocalDistributedLock
    → Result LockLease × LocalDistributedLock
unfolding acquire_found
acquire now token key owner ttl l = acquire_found now token key owner ttl (lookup key l.locks) l

-- `!exists || entry.token != lease.Token`
abbrev is_stranger : LockLease → Option LocalLockEntry → Bool
is_stranger lease none = true
is_stranger lease (some entry) = not (str_eq entry.token lease.token)

unfoldable pub release :
    Option LockLease → LocalDistributedLock → Result (Unit {0}) × LocalDistributedLock
release none l = (err invalid_lease, l)
release (some lease) l =
    if is_stranger lease (lookup lease.resource_key l.locks) then (err invalid_lease, l) else (
      ok tt,
      record l { locks = erase lease.resource_key l.locks; released_count = l.released_count + 1 },
    )

extend_found :
    ℕ
    → LockLease
    → ℕ
    → Option LocalLockEntry
    → LocalDistributedLock
    → Result LockLease × LocalDistributedLock
extend_found now lease extra none l = (err invalid_lease, l)
extend_found now lease extra (some entry) l =
    if not (str_eq entry.token lease.token)
    then (err invalid_lease, l)
    else if ltb entry.expires_at now
    then (err lock_expired, l)
    else (
      ok (record lease { expires_at = entry.expires_at + extra }),
      record l {
        locks =
            insert lease.resource_key (record entry { expires_at = entry.expires_at + extra })
              l.locks;
      },
    )

-- The lease is written through its pointer: the new one is the result.
unfoldable pub extend :
    ℕ → Option LockLease → ℕ → LocalDistributedLock → Result LockLease × LocalDistributedLock
unfolding extend_found
extend now none extra l = (err invalid_lease, l)
extend now (some lease) extra l = extend_found now lease extra (lookup lease.resource_key l.locks) l
