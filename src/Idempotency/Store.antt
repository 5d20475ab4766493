-- ===== src/Idempotency/Store.antt =====
-- The pod-local layer of `IdempotencyStore`. Records are mutated through pointers, so the model has a
-- heap: `heap ref` is the record behind a pointer and `next` the next pointer to be allocated.
use ropus.Common.{
  ℕ, ◌+◌, ◌/◌, String, ◌<>◌, str_eq, Bool, true, false, not, ◌||◌, Option, none, some, List, [],
  ◌∷◌, length, if◌then◌else◌, ltb, leb, ◌==◌, Bool-cases, Option-cases, inl, inr, ◌&&◌, is_some,
}
use ropus.Common.Int.{ℤ, or_default}
use ropus.Common.Dict.{Dict, lookup, insert, erase}

pub record HttpResponse : Type 0 where
  pub status : ℕ
  pub headers : Dict (List String)
  pub body : List ℕ

-- `is_held` stands for the record's mutex, `store_key` for the key under which it was made.
pub record IdempotencyRecord : Type 0 where
  pub store_key : String
  pub request_hash : String
  pub response : HttpResponse
  pub created_at : ℕ
  pub expires_at : ℕ
  pub in_flight : Bool
  pub is_held : Bool

-- `blocked_on` is the record that a request waits for while it holds the store's mutex.
pub record IdempotencyStore : Type 0 where
  pub heap : ℕ → IdempotencyRecord
  pub next : ℕ
  pub records : Dict ℕ
  pub ttl : ℕ
  pub max_size : ℕ
  pub hits : ℕ
  pub misses : ℕ
  pub conflicts : ℕ
  pub has_db : Bool
  pub blocked_on : Option ℕ

-- The zero values of the record's response.
abbrev pub no_response : HttpResponse
no_response = record { status = 0; headers = []; body = [] }

abbrev no_record : IdempotencyRecord
no_record = record {
  store_key = "";
  request_hash = "";
  response = no_response;
  created_at = 0;
  expires_at = 0;
  in_flight = false;
  is_held = false;
}

unfoldable pub new_idempotency_store : Bool → ℤ → ℤ → IdempotencyStore
new_idempotency_store has_db ttl max_size = record {
  heap = λ ref. no_record;
  next = 0;
  records = [];
  ttl = or_default 900000000000 ttl;
  max_size = or_default 50000 max_size;
  hits = 0;
  misses = 0;
  conflicts = 0;
  has_db = has_db;
  blocked_on = none;
}

-- SHA-256 over the method, the path and the body, in hexadecimal.
abbrev pub compute_request_hash : (String → List ℕ → String) → String → String → List ℕ → String
compute_request_hash sha256_hex method path body = sha256_hex (method <> ":" <> path <> ":") body

unfoldable pub drop_expired : ℕ → (ℕ → IdempotencyRecord) → Dict ℕ → Dict ℕ
drop_expired now heap [] = []
drop_expired now heap ((k, ref) ∷ d) =
    let rest = drop_expired now heap d in
    if ltb (heap ref).expires_at now then rest else (k, ref) ∷ rest

-- What the loop with `count` leaves: it stops after the deletion that takes `count` above `limit`.
unfoldable pub drop_first : ℕ → ℕ → Dict ℕ → Dict ℕ
drop_first limit count [] = []
drop_first limit count ((k, ref) ∷ d) =
    let rest = drop_first limit (count + 1) d in if ltb limit (count + 1) then d else rest

unfoldable pub evict_expired_locked : ℕ → IdempotencyStore → IdempotencyStore
evict_expired_locked now s =
    let kept = drop_expired now s.heap s.records in
    record s {
      records = if leb s.max_size (length kept) then drop_first (s.max_size / 10) 0 kept else kept;
    }

-- What a request goes on to do.
pub data Entry : Type 0 where
  passes : Entry
  bad_request : Entry
  conflict : Entry
  waits : ℕ → Entry
  executes : ℕ → Entry

abbrev pub write_at :
    ℕ → (IdempotencyRecord → IdempotencyRecord) → (ℕ → IdempotencyRecord) → ℕ → IdempotencyRecord
write_at ref f heap i = if i == ref then f (heap i) else heap i

-- A new record, in flight and with its mutex held.
unfoldable pub register : ℕ → String → String → IdempotencyStore → Entry × IdempotencyStore
register now key hash s = (
  executes s.next,
  record s {
    heap =
        write_at s.next
          (λ old. record {
            store_key = key;
            request_hash = hash;
            response = no_response;
            created_at = now;
            expires_at = now + s.ttl;
            in_flight = true;
            is_held = true;
          })
          s.heap;
    next = s.next + 1;
    records = insert key s.next s.records;
    misses = s.misses + 1;
  },
)

-- A request that finds a record with its hash keeps the store's mutex until it has the record's.
unfoldable pub admit_found :
    ℕ → String → String → Option ℕ → IdempotencyStore → Entry × IdempotencyStore
unfolding register
admit_found now key hash none s = register now key hash s
admit_found now key hash (some ref) s =
    if ltb (s.heap ref).expires_at now
    then register now key hash (record s { records = erase key s.records })
    else if not (str_eq (s.heap ref).request_hash hash)
    then (conflict, record s { conflicts = s.conflicts + 1 })
    else (waits ref, record s { blocked_on = some ref })

unfoldable pub admit : ℕ → String → String → IdempotencyStore → Entry × IdempotencyStore
unfolding admit_found
admit now key hash s =
    let s' = if leb s.max_size (length s.records) then evict_expired_locked now s else s in
    admit_found now key hash (lookup key s'.records) s'

-- A request, with its tenant resolved; `body` is none where reading it fails.
pub record Request : Type 0 where
  pub method : String
  pub path : String
  pub tenant_id : String
  pub key : String
  pub body : Option (List ℕ)

abbrev pub is_mutation : String → Bool
is_mutation method =
    str_eq method "POST" || str_eq method "PUT" || str_eq method "PATCH" || str_eq method "DELETE"

abbrev pub store_key_of : Request → String
store_key_of r = r.tenant_id <> ":" <> r.key

-- Whether a request comes to the store's critical section.
abbrev pub uses_store : Request → Bool
uses_store r = is_mutation r.method && not (str_eq r.key "") && is_some (r.body)

-- The middleware up to the end of the store's critical section, with the clock reading `now` that the
-- request has made before it.
unfoldable pub enter :
    (String → List ℕ → String) → ℕ → Request → IdempotencyStore → Entry × IdempotencyStore
enter sha256_hex now r s =
    if not (is_mutation r.method)
    then (passes, s)
    else if str_eq r.key ""
    then (passes, s)
    else elim (r.body) [
      | none ↦ (bad_request, s)
      | some body ↦
          admit now (store_key_of r) (compute_request_hash sha256_hex r.method r.path body) s
    ]

-- A property of what `enter` gives, by its branches.
pub enter_by {ℓ} :
    (P : Entry × IdempotencyStore → Type ℓ) (sha256_hex : String → List ℕ → String) (now : ℕ)
    (r : Request) (s : IdempotencyStore)
    → P (passes, s)
    → P (bad_request, s)
    → ((hash : String) → P (admit now (store_key_of r) hash s))
    → P (enter sha256_hex now r s)
unfolding enter
enter_by P sha256_hex now r s passed unread admitted = elim (Bool-cases (is_mutation r.method)) [
  | inr get ↦ rw get passed
  | inl mutation ↦ elim (Bool-cases (str_eq r.key "")) [
    | inl keyless ↦ rw (mutation, keyless) passed
    | inr keyed ↦ elim (Option-cases (r.body)) [
      | inl failed ↦ rw (mutation, keyed, failed) unread
      | inr (body, read) ↦
          rw (mutation, keyed, read)
            (admitted (compute_request_hash sha256_hex r.method r.path body))
    ]
  ]
]

-- The waiting request has the record's mutex: it gives the store's back and replays.
unfoldable pub replay : ℕ → IdempotencyStore → HttpResponse × IdempotencyStore
replay ref s = ((s.heap ref).response, record s { hits = s.hits + 1; blocked_on = none })

-- The executing request stores its outcome and gives the record's mutex back.
unfoldable pub complete : ℕ → HttpResponse → IdempotencyStore → IdempotencyStore
complete ref response s = record s {
  heap =
      write_at ref (λ r. record r { response = response; in_flight = false; is_held = false })
        s.heap;
}

-- After a conflict in the database: the record's mutex, then the entry under the store's.
unfoldable pub abandon : ℕ → IdempotencyStore → IdempotencyStore
abandon ref s = record s { heap = write_at ref (λ r. record r { is_held = false }) s.heap }

unfoldable pub remove : String → IdempotencyStore → IdempotencyStore
remove key s = record s { records = erase key s.records; conflicts = s.conflicts + 1 }
