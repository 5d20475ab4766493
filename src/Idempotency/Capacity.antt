-- ===== src/Idempotency/Capacity.antt =====
-- The bound on the records of the pod-local layer.
use ropus.Common.{
  ℕ, ◌+◌, ◌/◌, ◌≤◌, ◌<◌, inl, inr, Bool-cases, String, Bool, Option, none, some, [], ◌∷◌, arith,
  length, leb,
}
use ropus.Common.Int.{ℤ, pos, negsuc, or_default}
use ropus.Common.Dict.{Dict, lookup, erase, length-insert, length-erase}
use ropus.Idempotency.Store.{
  IdempotencyRecord, IdempotencyStore, new_idempotency_store, register, admit_found, admit,
  drop_expired, drop_first, evict_expired_locked, enter_by, store_key_of, replay, complete, abandon,
  remove,
}
use ropus.Idempotency.Steps.{
  Pod, new_pod, Step, ticks, passes_by, enters, resumes, completes, panics, abandons, removes,
  Steps, done, then_step,
}

length-drop_expired :
    (now : ℕ) (heap : ℕ → IdempotencyRecord) (d : Dict ℕ)
    → length (drop_expired now heap d) ≤ length d
unfolding drop_expired
length-drop_expired now heap [] = omega arith
length-drop_expired now heap ((k, ref) ∷ d) = ground (arith, length-drop_expired now heap d)

length-drop_first : (limit count : ℕ) (d : Dict ℕ) → length (drop_first limit count d) ≤ length d
unfolding drop_first
length-drop_first limit count [] = omega arith
length-drop_first limit count ((k, ref) ∷ d) = ground (arith, length-drop_first limit (count + 1) d)

drop_first_drops :
    (limit count : ℕ) (d : Dict ℕ) → 0 < length d → length (drop_first limit count d) < length d
unfolding drop_first
drop_first_drops limit count [] h = ground arith
drop_first_drops limit count ((k, ref) ∷ d) h =
    ground (arith, length-drop_first limit (count + 1) d)

-- An eviction makes room.
evict_makes_room :
    (now : ℕ) (s : IdempotencyStore)
    → 0 < s.max_size
    → length s.records ≤ s.max_size
    → length (evict_expired_locked now s).records < s.max_size
unfolding evict_expired_locked
evict_makes_room now s some_room h =
    let kept = drop_expired now s.heap s.records in
    ground
      (arith, length-drop_expired now s.heap s.records, drop_first_drops (s.max_size / 10) 0 kept)

abbrev pub IsBounded : IdempotencyStore → Type 0
IsBounded s = (0 < s.max_size) × (length s.records ≤ s.max_size)

admit_found-IsBounded :
    (now : ℕ) (key hash : String) (o : Option ℕ) (s : IdempotencyStore)
    → 0 < s.max_size
    → length s.records < s.max_size
    → IsBounded (admit_found now key hash o s).1
unfolding admit_found register
admit_found-IsBounded now key hash none s p h =
    (p, ground (arith, length-insert key s.next s.records))
admit_found-IsBounded now key hash (some ref) s p h = (
  ground arith,
  ground (arith, length-erase key s.records, length-insert key s.next (erase key s.records)),
)

admit-IsBounded :
    (now : ℕ) (key hash : String) (s : IdempotencyStore)
    → IsBounded s
    → IsBounded (admit now key hash s).1
unfolding admit
admit-IsBounded now key hash s h = elim (Bool-cases (leb s.max_size (length s.records))) [
  | inl full ↦
      let s' = evict_expired_locked now s in
      rw full (
        admit_found-IsBounded now key hash (lookup key s'.records) s'
          (unfold evict_expired_locked in h.0)
          (unfold evict_expired_locked in evict_makes_room now s h.0 h.1))
  | inr roomy ↦
      rw roomy (admit_found-IsBounded now key hash (lookup key s.records) s h.0 (ground arith))
]

next-IsBounded : (p : Pod) {q : Pod} → IsBounded p.store → Step p q → IsBounded q.store
unfolding replay complete abandon remove
next-IsBounded p h (ticks now t) = h
next-IsBounded p h (passes_by r u) = h
next-IsBounded p h (enters sha256_hex now r u b t) =
    enter_by (λ e. IsBounded e.1) sha256_hex now r p.store h h
      (λ hash. admit-IsBounded now (store_key_of r) hash p.store h)
next-IsBounded p h (resumes ref b free) = h
next-IsBounded p h (completes before ref after response e) = h
next-IsBounded p h (panics before ref after e) = h
next-IsBounded p h (abandons before ref after db e) = h
next-IsBounded p h (removes before key after db b e) =
    (h.0, ground (arith, length-erase key p.store.records))

later-IsBounded : (p : Pod) {q : Pod} → IsBounded p.store → Steps p q → IsBounded q.store
later-IsBounded p h done = h
later-IsBounded p h (then_step {q} before s) = next-IsBounded q (later-IsBounded p h before) s

max_size_positive : (z : ℤ) → 0 < or_default 50000 z
max_size_positive (pos n) = ground arith
max_size_positive (negsuc n) = omega arith

-- In every state that a pod reaches, with a database or without, the store holds at most its
-- capacity of records, and the capacity is positive.
pub reached-IsBounded :
    (has_db : Bool) (ttl max_size : ℤ) (p : Pod)
    → Steps (new_pod has_db ttl max_size) p
    → IsBounded p.store
unfolding new_idempotency_store
reached-IsBounded has_db ttl max_size p reached =
    later-IsBounded (new_pod has_db ttl max_size) (max_size_positive max_size, omega arith) reached
