-- ===== src/Lock/Counts.antt =====
-- The counters of the local lock.
use ropus.Common.{◌+◌, ◌≤◌, inl, inr, Option-cases, eq_iff, List, [], ◌∷◌, arith, length}
use ropus.Common.Dict.{lookup, erase, IsMap, lookup-erase, length-insert, length-erase}
use ropus.Lock.Local.{LocalLockEntry, LocalDistributedLock, new_local, acquire, release, extend}
use ropus.Lock.Exclusion.{Call, acquires, releases, extends, call, run, call-IsMap}

-- Whatever has been granted is held, has been released, or has been replaced after its expiry.
abbrev pub IsCounted : LocalDistributedLock → Type 0
IsCounted l = length l.locks + l.released_count ≤ l.acquired_count

call-IsCounted :
    (c : Call) (l : LocalDistributedLock) → IsMap l.locks → IsCounted l → IsCounted (call c l)
unfolding call acquire release extend
call-IsCounted (acquires now token key owner ttl) l m h =
    let x : LocalLockEntry = record { token = token; owner_id = owner; expires_at = now + ttl } in
    ground (
      arith,
      length-insert key x l.locks,
      length-erase key l.locks,
      length-insert key x (erase key l.locks),
      lookup-erase key key l.locks m,
      eq_iff key key,
    )
call-IsCounted (releases lease) l m h = ground (arith, length-erase lease.resource_key l.locks)
call-IsCounted (extends now lease extra) l m h =
    elim (Option-cases (lookup lease.resource_key l.locks)) [
      | inl gone ↦ ground arith
      | inr (e, found) ↦ ground (
        arith,
        length-insert lease.resource_key (record e { expires_at = e.expires_at + extra }) l.locks,
      )
    ]

run-IsCounted :
    (cs : List Call) (l : LocalDistributedLock) → IsMap l.locks → IsCounted l → IsCounted (run cs l)
unfolding run
run-IsCounted [] l m h = h
run-IsCounted (c ∷ cs) l m h =
    run-IsCounted cs (call c l) (call-IsMap c l m) (call-IsCounted c l m h)

-- From a new lock, after any calls: the locks in the map and the releases together are at most the
-- grants.
pub run_new-IsCounted : (cs : List Call) → IsCounted (run cs new_local)
run_new-IsCounted cs =
    run-IsCounted cs new_local (unfold new_local in tt) (unfold new_local in omega arith)
