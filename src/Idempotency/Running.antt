-- ===== src/Idempotency/Running.antt =====
-- The running handlers of a pod, and the records that they hold.
use ropus.Common.{
  ℕ, suc, ◌+◌, ◌≤◌, ◌≡◌, ◌≢◌, ◌⊎◌, inl, inr, refl, Bool-cases, String, str_eq, Bool, true, Option,
  none, some, List, [], ◌∷◌, ◌++◌, arith, ap, ◌∙◌, length, if◌then◌else◌, ltb, leb, ◌==◌,
}
use ropus.Common.Int.{ℤ}
use ropus.Common.Dict.{lookup, erase}
use ropus.Idempotency.Store.{
  IdempotencyRecord, IdempotencyStore, Entry, passes, bad_request, executes, Request, no_response,
  write_at, register, admit_found, admit, evict_expired_locked, enter, enter_by, store_key_of,
  replay, complete, abandon, remove,
}
use ropus.Idempotency.Steps.{
  Pod, new_pod, started, entered, Step, ticks, passes_by, enters, resumes, completes, panics,
  abandons, removes, Steps, done, then_step,
}

-- How often a record is in a list.
abbrev pub count_of : ℕ → List ℕ → ℕ
count_of ref [] = 0
count_of ref (r ∷ rs) = if r == ref then suc (count_of ref rs) else count_of ref rs

pub count_of-middle :
    (ref r : ℕ) (before after : List ℕ)
    → count_of ref (before ++ (r ∷ after))
      ≡ (if r == ref then suc (count_of ref (before ++ after)) else count_of ref (before ++ after))
count_of-middle ref r [] after = refl
count_of-middle ref r (b ∷ before) after = ground (arith, count_of-middle ref r before after)

-- One handler at most runs for a record; until it ends, the record is held and has no response.
abbrev pub IsSound : Pod → Type 0
IsSound p =
    (ref : ℕ)
    → (count_of ref p.running ≤ 1)
      × (p.store.next ≤ ref → count_of ref p.running ≡ 0)
      × (count_of ref p.running ≡ 1
          → ((p.store.heap ref).is_held ≡ true) × ((p.store.heap ref).response ≡ no_response))

-- The records after a request: those before it, or one more, for which a handler starts.
abbrev pub IsEntered : IdempotencyStore → Entry × IdempotencyStore → Type 0
IsEntered s (e, s') =
    ((s'.heap ≡ s.heap) × (s'.next ≡ s.next) × ((running : List ℕ) → started e running ≡ running))
    ⊎ ((new : IdempotencyRecord) × (new.is_held ≡ true)
        × (new.response ≡ no_response)
        × (s'.heap ≡ write_at s.next (λ old. new) s.heap)
        × (s'.next ≡ s.next + 1)
        × (e ≡ executes s.next))

register-IsEntered :
    (now : ℕ) (key hash : String) (s : IdempotencyStore) → IsEntered s (register now key hash s)
unfolding register
register-IsEntered now key hash s = inr (
  record {
    store_key = key;
    request_hash = hash;
    response = no_response;
    created_at = now;
    expires_at = now + s.ttl;
    in_flight = true;
    is_held = true;
  },
  refl,
  refl,
  refl,
  refl,
  refl,
)

admit_found-IsEntered :
    (now : ℕ) (key hash : String) (o : Option ℕ) (s : IdempotencyStore)
    → IsEntered s (admit_found now key hash o s)
unfolding admit_found
admit_found-IsEntered now key hash none s = register-IsEntered now key hash s
admit_found-IsEntered now key hash (some ref) s =
    elim (Bool-cases (ltb (s.heap ref).expires_at now)) [
      | inl old ↦ rw old (
          unfold register in
          register-IsEntered now key hash (record s { records = erase key s.records }))
      | inr live ↦ elim (Bool-cases (str_eq (s.heap ref).request_hash hash)) [
        | inl same ↦ rw (live, same) (inl (refl, refl, λ running. refl))
        | inr other ↦ rw (live, other) (inl (refl, refl, λ running. refl))
      ]
    ]

admit-IsEntered :
    (now : ℕ) (key hash : String) (s : IdempotencyStore) → IsEntered s (admit now key hash s)
unfolding admit evict_expired_locked
admit-IsEntered now key hash s = elim (Bool-cases (leb s.max_size (length s.records))) [
  | inl full ↦
      let s' = evict_expired_locked now s in
      rw full (admit_found-IsEntered now key hash (lookup key s'.records) s')
  | inr roomy ↦ rw roomy (admit_found-IsEntered now key hash (lookup key s.records) s)
]

pub enter-IsEntered :
    (sha256_hex : String → List ℕ → String) (now : ℕ) (r : Request) (s : IdempotencyStore)
    → IsEntered s (enter sha256_hex now r s)
enter-IsEntered sha256_hex now r s =
    let same : (e : Entry)
        → ((running : List ℕ) → started e running ≡ running)
        → IsEntered s (e, s) =
      λ e h. inl (refl, refl, h) in
    enter_by (IsEntered s) sha256_hex now r s (same passes (λ _. refl))
      (same bad_request (λ _. refl)) (λ hash. admit-IsEntered now (store_key_of r) hash s)

enter-IsSound :
    (sha256_hex : String → List ℕ → String) (now : ℕ) (r : Request) (p : Pod)
    → IsSound p
    → IsSound (entered sha256_hex now r p)
enter-IsSound sha256_hex now r p h ref =
    let (bound, fresh, held) = h ref in
    elim (enter-IsEntered sha256_hex now r p.store) [
      | inl (heap, next, same) ↦ rw (heap, next, same p.running) (bound, fresh, held)
      | inr (new, new_held, unanswered, heap, next, starts) ↦
          rw (heap, next, starts) (ground arith, ground arith, ground arith)
    ]

-- A handler ends, and writes to its own record at most.
end-IsSound :
    (p : Pod) (before : List ℕ) (r : ℕ) (after : List ℕ) (heap : ℕ → IdempotencyRecord)
    → p.running ≡ before ++ (r ∷ after)
    → ((ref : ℕ) → ref ≢ r → heap ref ≡ p.store.heap ref)
    → IsSound p
    → (ref : ℕ)
    → (count_of ref (before ++ after) ≤ 1)
      × (p.store.next ≤ ref → count_of ref (before ++ after) ≡ 0)
      × (count_of ref (before ++ after) ≡ 1
          → ((heap ref).is_held ≡ true) × ((heap ref).response ≡ no_response))
end-IsSound p before r after heap e kept h ref =
    let split : count_of ref p.running ≡ (
        if r == ref then suc (count_of ref (before ++ after)) else count_of ref (before ++ after)) =
      ap (count_of ref) e ∙ count_of-middle ref r before after in
    let (bound, fresh, held) = h ref in
    (ground arith, (λ b. ground arith), λ once. ground (arith, kept ref))

next-IsSound : (p : Pod) {q : Pod} → IsSound p → Step p q → IsSound q
unfolding replay complete abandon remove
next-IsSound p h (ticks now t) = h
next-IsSound p h (passes_by r u) = h
next-IsSound p h (enters sha256_hex now r u b t) = enter-IsSound sha256_hex now r p h
next-IsSound p h (resumes ref b free) = h
next-IsSound p h (completes before r after response e) =
    end-IsSound p before r after (complete r response p.store).heap e (λ ref n. ground arith) h
next-IsSound p h (panics before r after e) =
    end-IsSound p before r after p.store.heap e (λ ref n. refl) h
next-IsSound p h (abandons before r after db e) =
    end-IsSound p before r after (abandon r p.store).heap e (λ ref n. ground arith) h
next-IsSound p h (removes before key after db b e) = h

pub later-IsSound : (p : Pod) {q : Pod} → IsSound p → Steps p q → IsSound q
later-IsSound p h done = h
later-IsSound p h (then_step {q} before s) = next-IsSound q (later-IsSound p h before) s

pub new-IsSound : (has_db : Bool) (ttl max_size : ℤ) → IsSound (new_pod has_db ttl max_size)
new-IsSound has_db ttl max_size ref = (omega arith, (λ b. refl), λ once. ground arith)
