-- ===== src/Examples/Lock.antt =====
-- Tests of distributed_lock.go.
use ropus.Common.{
  ℕ, ◌+◌, ◌*◌, ◌<◌, ◌≡◌, ◌≢◌, refl, inr, String, eq_iff, true, false, Option, none, some, List, [],
  ◌∷◌, arith, ltb, if◌then◌else◌,
}
use ropus.Common.Dict.{Dict, lookup, insert, erase, lookup-insert}
use ropus.Lock.Local.{
  LockLease, LocalDistributedLock, Result, ok, err, lock_held, invalid_lease, new_local, acquire,
  release, extend,
}
use ropus.Lock.Exclusion.{Call, acquires, releases, extends, run, acquire_excludes, stale_lease}
use ropus.Lock.Remote.{Redis, extend_remote, is_stored, extend_remote_overstates}

abbrev granted : Result LockLease × LocalDistributedLock
granted = acquire 10 "t1" "pay" "al" 5 new_local

abbrev lease : LockLease
lease = record {
  resource_key = "pay";
  token = "t1";
  owner_id = "al";
  acquired_at = 10;
  expires_at = 15;
}

granted_lease : granted.0 ≡ ok lease
unfolding acquire new_local
granted_lease = refl

abbrev other : LockLease
other = record lease { token = "t0" }

abbrev attempts : List Call
attempts = acquires 14 "t2" "pay" "bo" 5 ∷ extends 14 other 9 ∷ releases other ∷ []

acquire_excludes_example : (acquire 14 "t3" "pay" "cy" 7 (run attempts granted.1)).0 ≡ err lock_held
acquire_excludes_example =
    acquire_excludes 10 "t1" "pay" "al" 5 new_local attempts 14 "t3" "cy" 7 (unfold new_local in tt)
      granted_lease
      (
        omega arith,
        (inr (ground (arith, eq_iff "t0" "t1")), (inr (ground (arith, eq_iff "t0" "t1")), tt)),
      )
      (omega arith)

stale_lease_example :
    (release (some other) granted.1 ≡ (err invalid_lease, granted.1))
    × (extend 12 (some other) 3 granted.1 ≡ (err invalid_lease, granted.1))
stale_lease_example =
    stale_lease 10 "t1" "pay" "al" 5 new_local other 12 3 granted_lease refl
      (ground (arith, eq_iff "t0" "t1"))

-- A server as a map from keys to values with the moments at which they expire.
abbrev live : ℕ → Option (String × ℕ) → Option String
live now none = none
live now (some (t, d)) = if ltb now d then some t else none

abbrev end_of : Option (String × ℕ) → ℕ
end_of none = 0
end_of (some (t, d)) = d

abbrev shifted : ℕ → String → Option (String × ℕ) → Dict (String × ℕ) → Dict (String × ℕ)
shifted d k none s = s
shifted d k (some (t, _)) s = insert k (t, d) s

shifted_end :
    (now d : ℕ) (k : String) (s : Dict (String × ℕ)) (o : Option (String × ℕ))
    → live now o ≢ none
    → end_of (lookup k (shifted d k o s)) ≡ d
shifted_end now d k s none h = ground arith
shifted_end now d k s (some (t, d')) h = ground (arith, eq_iff k k, lookup-insert k k (t, d) s)

abbrev server : Redis
server = record {
  State = Dict (String × ℕ);
  get = λ now k s. live now (lookup k s);
  deadline = λ k s. end_of (lookup k s);
  del = λ k s. erase k s;
  pexpire = λ now k ms s. shifted (now + ms * 1000000) k (lookup k s) s;
  set_nx = λ now k t ttl s. elim (live now (lookup k s)) [
    | none ↦ (true, insert k (t, now + ttl) s)
    | some _ ↦ (false, s)
  ];
  deadline-pexpire = λ now k ms s h. shifted_end now (now + ms * 1000000) k s (lookup k s) h;
}

abbrev stored : Dict (String × ℕ)
stored = ("lock:pay", ("t1", 15)) ∷ []

-- One millisecond more at the server is counted from moment 11.
renewed :
    (extend_remote server true none 11 (some lease) 1000000 stored).0
    ≡ ok (record lease { expires_at = 1000015 })
unfolding extend_remote is_stored
renewed = refl

extend_remote_overstates_example :
    server.deadline "lock:pay" (extend_remote server true none 11 (some lease) 1000000 stored).1
    < 1000015
extend_remote_overstates_example =
    extend_remote_overstates server 11 lease 1000000 stored (omega arith) renewed
