-- ===== src/Idempotency/Replay.antt =====
-- What becomes of the requests that wait for a handler, whether it completes, panics or is given up.
use ropus.Common.{
  ℕ, ◌<◌, ◌≡◌, inl, inr, refl, String, Bool, true, false, some, List, ◌∷◌, ◌++◌, arith, ap, ◌∙◌,
  ◌==◌,
}
use ropus.Common.Int.{ℤ}
use ropus.Idempotency.Store.{HttpResponse, Request, no_response, replay, complete, abandon, remove}
use ropus.Idempotency.Steps.{
  Pod, new_pod, entered, Step, ticks, passes_by, enters, resumes, completes, panics, abandons,
  removes, Steps, done, then_step,
}
use ropus.Idempotency.Running.{
  count_of, count_of-middle, enter-IsEntered, later-IsSound, new-IsSound,
}

-- Another handler than that of `ref` ends.
other_ends :
    (ref r : ℕ) (before after running : List ℕ)
    → running ≡ before ++ (r ∷ after)
    → count_of ref running ≡ 0
    → (ref == r ≡ false) × (count_of ref (before ++ after) ≡ 0)
other_ends ref r before after running e ended =
    let split = ap (count_of ref) e ∙ count_of-middle ref r before after in
    (ground arith, ground arith)

-- What stays of a record that no handler runs for.
abbrev pub IsKept : ℕ → Pod → Pod → Type 0
IsKept ref p q =
    (count_of ref q.running ≡ 0)
    × (ref < q.store.next)
    × ((q.store.heap ref).is_held ≡ (p.store.heap ref).is_held)
    × ((q.store.heap ref).response ≡ (p.store.heap ref).response)

entered-IsKept :
    (sha256_hex : String → List ℕ → String) (now : ℕ) (r : Request) (p : Pod) (ref : ℕ)
    → ref < p.store.next
    → count_of ref p.running ≡ 0
    → IsKept ref p (entered sha256_hex now r p)
entered-IsKept sha256_hex now r p ref made ended = elim (enter-IsEntered sha256_hex now r p.store) [
  | inl (heap, next, same) ↦ rw (heap, next, same p.running) (ended, made, refl, refl)
  | inr (new, new_held, unanswered, heap, next, starts) ↦
      rw (heap, next, starts) (ground arith, ground arith, ground arith, ground arith)
]

next-IsKept :
    (p : Pod) {q : Pod} (ref : ℕ)
    → ref < p.store.next
    → count_of ref p.running ≡ 0
    → Step p q
    → IsKept ref p q
unfolding replay complete abandon remove
next-IsKept p ref made ended (ticks now t) = (ended, made, refl, refl)
next-IsKept p ref made ended (passes_by r u) = (ended, made, refl, refl)
next-IsKept p ref made ended (enters sha256_hex now r u b t) =
    entered-IsKept sha256_hex now r p ref made ended
next-IsKept p ref made ended (resumes r b free) = (ended, made, refl, refl)
next-IsKept p ref made ended (completes before r after response e) =
    let (other, rest) = other_ends ref r before after p.running e ended in
    (rest, made, rw other refl, rw other refl)
next-IsKept p ref made ended (panics before r after e) =
    ((other_ends ref r before after p.running e ended).1, made, refl, refl)
next-IsKept p ref made ended (abandons before r after db e) =
    let (other, rest) = other_ends ref r before after p.running e ended in
    (rest, made, rw other refl, rw other refl)
next-IsKept p ref made ended (removes before key after db b e) = (ended, made, refl, refl)

later-IsKept :
    (p : Pod) {q : Pod} (ref : ℕ)
    → ref < p.store.next
    → count_of ref p.running ≡ 0
    → Steps p q
    → IsKept ref p q
later-IsKept p ref made ended done = (ended, made, refl, refl)
later-IsKept p ref made ended (then_step {q} before s) =
    let (still, there, held, response) = later-IsKept p ref made ended before in
    let (still', there', held', response') = next-IsKept q ref there still s in
    (still', there', held' ∙ held, response' ∙ response)

-- Replay is faithful: once a handler has completed its record with a response, every request that
-- waits for this record, at whatever later state of the pod, is answered with that response.
pub replay_faithful :
    (has_db : Bool) (ttl max_size : ℤ) (p q : Pod) (before : List ℕ) (ref : ℕ) (after : List ℕ)
    (response : HttpResponse)
    → Steps (new_pod has_db ttl max_size) p
    → p.running ≡ before ++ (ref ∷ after)
    → Steps (record p { store = complete ref response p.store; running = before ++ after }) q
    → (replay ref q.store).0 ≡ response
unfolding replay complete
replay_faithful has_db ttl max_size p q before ref after response reached e later =
    let h =
      later-IsSound (new_pod has_db ttl max_size) (new-IsSound has_db ttl max_size) reached ref in
    let p' : Pod = record p { store = complete ref response p.store; running = before ++ after } in
    let split = ap (count_of ref) e ∙ count_of-middle ref ref before after in
    let ended : count_of ref p'.running ≡ 0 = ground (arith, h.0) in
    let kept = later-IsKept p' ref (ground arith) ended later in kept.3 ∙ ground arith

-- What stays of the store while a request waits for a record that stays held.
abbrev pub IsStuck : ℕ → Pod → Pod → Type 0
IsStuck ref p q =
    (q.store.blocked_on ≡ some ref)
    × ((q.store.heap ref).is_held ≡ true)
    × (q.store.records ≡ p.store.records)
    × (q.store.next ≡ p.store.next)
    × (q.store.hits ≡ p.store.hits)

-- A handler given up for a conflict in the database leaves a record without a response: a request
-- that waits for it is answered with status code 0 and no body.
pub abandoned_replay :
    (has_db : Bool) (ttl max_size : ℤ) (p : Pod) (before : List ℕ) (ref : ℕ) (after : List ℕ)
    → Steps (new_pod has_db ttl max_size) p
    → p.running ≡ before ++ (ref ∷ after)
    → ((abandon ref p.store).heap ref).is_held ≡ false
      × (replay ref (abandon ref p.store)).0 ≡ no_response
unfolding replay abandon
abandoned_replay has_db ttl max_size p before ref after reached e =
    let h =
      later-IsSound (new_pod has_db ttl max_size) (new-IsSound has_db ttl max_size) reached ref in
    let split = ap (count_of ref) e ∙ count_of-middle ref ref before after in
    let once : count_of ref p.running ≡ 1 = ground (arith, h.0) in
    let (held, unanswered) = h.2 once in (ground arith, ground arith)
