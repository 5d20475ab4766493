-- ===== src/Idempotency/Once.antt =====
-- A request is executed at most once: the pod-local layer without a database.
use ropus.Common.{
  ℕ, ◌≤◌, ◌<◌, ◌≡◌, ◌≢◌, refl, String, str_eq, eq_iff, true, false, some, List, arith, ◌∙◌,
  if◌then◌else◌,
}
use ropus.Common.Int.{ℤ}
use ropus.Common.Dict.{lookup}
use ropus.Idempotency.Store.{
  HttpResponse, IdempotencyStore, new_idempotency_store, conflict, waits, Request, is_mutation,
  register, admit_found, admit, evict_expired_locked, enter, store_key_of, compute_request_hash,
  replay, complete, abandon, remove,
}
use ropus.Idempotency.Steps.{
  Pod, new_pod, Step, ticks, passes_by, enters, resumes, completes, panics, abandons, removes,
  Steps, done, then_step,
}
use ropus.Idempotency.Current.{IsCurrent, later-IsCurrent, enter-IsCurrent, not_full}

-- What a request leaves of the store's settings, and that pointers are only allocated.
enter_frame :
    (sha256_hex : String → List ℕ → String) (now : ℕ) (r : Request) (s : IdempotencyStore)
    → ((enter sha256_hex now r s).1.has_db ≡ s.has_db)
      × ((enter sha256_hex now r s).1.max_size ≡ s.max_size)
      × (s.next ≤ (enter sha256_hex now r s).1.next)
unfolding enter admit admit_found register evict_expired_locked
enter_frame sha256_hex now r s = (ground arith, ground arith, ground arith)

complete-IsCurrent :
    (ref : ℕ) (response : HttpResponse) (s : IdempotencyStore) (clock : ℕ)
    → IsCurrent s clock
    → IsCurrent (complete ref response s) clock
unfolding complete
complete-IsCurrent ref response s clock h = record {
  is_map = h.is_map;
  size = h.size;
  current = λ r b e. ground (arith, h.current r);
}

abbrev pub IsOnce : Pod → Type 0
IsOnce p = p.store.has_db ≡ false → p.store.next < p.store.max_size → IsCurrent p.store p.clock

next-IsOnce : (p : Pod) {q : Pod} → IsOnce p → Step p q → IsOnce q
unfolding replay complete abandon remove
next-IsOnce p h (ticks now t) d f = later-IsCurrent p.store p.clock (h d f) now t
next-IsOnce p h (passes_by r u) d f = h d f
next-IsOnce p h (enters sha256_hex now r _ _ t) d f =
    let (db, size, grown) = enter_frame sha256_hex now r p.store in
    enter-IsCurrent sha256_hex now r p.store p.clock t (h (ground arith) (omega arith))
      (omega arith)
next-IsOnce p h (resumes ref b free) d f =
    let c = h d f in record { is_map = c.is_map; size = c.size; current = c.current }
next-IsOnce p h (completes before ref after response q) d f =
    complete-IsCurrent ref response p.store p.clock (h d f)
next-IsOnce p h (panics before ref after q) d f = h d f
next-IsOnce p h (abandons before ref after db q) d f = ground arith
next-IsOnce p h (removes before key after db b q) d f = ground arith

later-IsOnce : (p : Pod) {q : Pod} → IsOnce p → Steps p q → IsOnce q
later-IsOnce p h done = h
later-IsOnce p h (then_step {q} before s) = next-IsOnce q (later-IsOnce p h before) s

new-IsOnce : (ttl max_size : ℤ) → IsOnce (new_pod false ttl max_size)
unfolding new_idempotency_store
new-IsOnce ttl max_size d f = record {
  is_map = tt;
  size = omega arith;
  current = λ ref b e. ground arith;
}

next_db : (p : Pod) {q : Pod} → Step p q → q.store.has_db ≡ p.store.has_db
unfolding replay complete abandon remove
next_db p (ticks now t) = refl
next_db p (passes_by r u) = refl
next_db p (enters sha256_hex now r _ _ t) = (enter_frame sha256_hex now r p.store).0
next_db p (resumes ref b free) = refl
next_db p (completes before ref after response q) = refl
next_db p (panics before ref after q) = refl
next_db p (abandons before ref after db q) = refl
next_db p (removes before key after db b q) = refl

later_db : (p : Pod) {q : Pod} → Steps p q → q.store.has_db ≡ p.store.has_db
later_db p done = refl
later_db p (then_step {q} before s) = next_db q s ∙ later_db p before

found_answer :
    (s : IdempotencyStore) (clock now ref : ℕ) (key hash : String)
    → IsCurrent s clock
    → s.next < s.max_size
    → ref < s.next
    → clock ≤ (s.heap ref).expires_at
    → now ≤ (s.heap ref).expires_at
    → (s.heap ref).store_key ≡ key
    → (admit now key hash s).0
      ≡ (if str_eq (s.heap ref).request_hash hash then waits ref else conflict)
unfolding admit admit_found
found_answer s clock now ref key hash h q b e live same =
    let found : lookup key s.records ≡ some ref = ground (arith, h.current ref b e) in
    rw (not_full s clock h q) (ground arith)

-- At most one execution. In every state that a pod without a database reaches before the number of
-- records made comes to the capacity, whatever else has happened: a mutation whose key has a record
-- that has expired neither by the clock nor at the request's own reading is not executed. It waits
-- for that record where its payload has the same hash, and it is a conflict where it has not.
pub at_most_once :
    (ttl max_size : ℤ) (p : Pod) (sha256_hex : String → List ℕ → String) (now ref : ℕ) (r : Request)
    (body : List ℕ)
    → Steps (new_pod false ttl max_size) p
    → p.store.next < p.store.max_size
    → ref < p.store.next
    → p.clock ≤ (p.store.heap ref).expires_at
    → now ≤ (p.store.heap ref).expires_at
    → is_mutation r.method ≡ true
    → r.key ≢ ""
    → r.body ≡ some body
    → (p.store.heap ref).store_key ≡ store_key_of r
    → (enter sha256_hex now r p.store).0 ≡ (
        if str_eq
          (p.store.heap ref).request_hash
          (compute_request_hash sha256_hex r.method r.path body)
        then waits ref
        else conflict)
unfolding enter new_idempotency_store
at_most_once ttl max_size p sha256_hex now ref r body steps roomy made t live mutation keyed read
      same =
    let db = later_db (new_pod false ttl max_size) steps in
    let h = later-IsOnce (new_pod false ttl max_size) (new-IsOnce ttl max_size) steps db roomy in
    let key_set : str_eq r.key "" ≡ false = ground (arith, eq_iff r.key "") in
    rw (mutation, key_set, read)
      (found_answer p.store p.clock now ref (store_key_of r)
        (compute_request_hash sha256_hex r.method r.path body) h roomy made t live same)
