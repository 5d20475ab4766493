-- ===== src/Idempotency/Steps.antt =====
-- The interleavings of the requests of one pod.
use ropus.Common.{ℕ, ◌≤◌, ◌≡◌, String, Bool, true, false, none, some, List, [], ◌∷◌, ◌++◌}
use ropus.Common.Int.{ℤ}
use ropus.Idempotency.Store.{
  HttpResponse, IdempotencyStore, new_idempotency_store, Entry, passes, bad_request, conflict,
  waits, executes, Request, uses_store, enter, replay, complete, abandon, remove,
}

-- The store, the records of the requests whose handler runs, the keys still to be removed after a
-- conflict in the database, and the clock.
pub record Pod : Type 0 where
  pub store : IdempotencyStore
  pub running : List ℕ
  pub removing : List String
  pub clock : ℕ

abbrev pub new_pod : Bool → ℤ → ℤ → Pod
new_pod has_db ttl max_size = record {
  store = new_idempotency_store has_db ttl max_size;
  running = [];
  removing = [];
  clock = 0;
}

abbrev pub started : Entry → List ℕ → List ℕ
started (executes ref) running = ref ∷ running
started passes running = running
started bad_request running = running
started conflict running = running
started (waits _) running = running

abbrev pub entered : (String → List ℕ → String) → ℕ → Request → Pod → Pod
entered sha256_hex now r p =
    let (entry, s) = enter sha256_hex now r p.store in
    record p { store = s; running = started entry p.running }

pub data Step (p : Pod) : Pod → Type 0 where
  ticks : (now : ℕ) → p.clock ≤ now → Step p (record p { clock = now })
  -- A request that is no mutation, has no key, or whose body cannot be read: it never takes the
  -- store's mutex.
  passes_by : (r : Request) → uses_store r ≡ false → Step p p
  -- The request has read the clock before it waited for the store's mutex.
  enters :
      (sha256_hex : String → List ℕ → String) (now : ℕ) (r : Request)
      → uses_store r ≡ true
      → p.store.blocked_on ≡ none
      → now ≤ p.clock
      → Step p (entered sha256_hex now r p)
  resumes :
      (ref : ℕ)
      → p.store.blocked_on ≡ some ref
      → (p.store.heap ref).is_held ≡ false
      → Step p (record p { store = (replay ref p.store).1 })
  completes :
      (before : List ℕ) (ref : ℕ) (after : List ℕ) (response : HttpResponse)
      → p.running ≡ before ++ (ref ∷ after)
      → Step p (record p { store = complete ref response p.store; running = before ++ after })
  -- The handler panics: nothing of the middleware's code after it runs.
  panics :
      (before : List ℕ) (ref : ℕ) (after : List ℕ)
      → p.running ≡ before ++ (ref ∷ after)
      → Step p (record p { running = before ++ after })
  abandons :
      (before : List ℕ) (ref : ℕ) (after : List ℕ)
      → p.store.has_db ≡ true
      → p.running ≡ before ++ (ref ∷ after)
      → Step p (record p {
        store = abandon ref p.store;
        running = before ++ after;
        removing = (p.store.heap ref).store_key ∷ p.removing;
      })
  removes :
      (before : List String) (key : String) (after : List String)
      → p.store.has_db ≡ true
      → p.store.blocked_on ≡ none
      → p.removing ≡ before ++ (key ∷ after)
      → Step p (record p { store = remove key p.store; removing = before ++ after })

pub data Steps (p : Pod) : Pod → Type 0 where
  done : Steps p p
  then_step : {q r : Pod} → Steps p q → Step q r → Steps p r
