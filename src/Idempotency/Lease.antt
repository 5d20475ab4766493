-- ===== src/Idempotency/Lease.antt =====
-- The claim of a key in the database as a lease, over any sequence of statements of any pods.
use ropus.Common.{
  ℕ, ◌+◌, ◌≤◌, ◌≡◌, ◌≢◌, ◌⊎◌, refl, inl, inr, Bool-cases, String, str_eq, eq_iff, true, ◌&&◌,
  Option, none, some, List, [], ◌∷◌, All, sym, ◌∙◌, arith, ltb, is_some,
}
use ropus.Idempotency.Store.{HttpResponse}
use ropus.Idempotency.Table.{
  DbIdempotencyRecord, Table, put, claimed_row, claim_db_in_flight, stale_in_flight_lease_duration,
  reclaim_found, reclaim_stale_db_in_flight, heartbeat_found, heartbeat, persist_found,
  persist_db_completed,
}

-- A statement on the row of a tenant and a key, with the server's clock.
pub data Statement : Type 0 where
  claims : ℕ → String → String → String → ℕ → Statement
  reclaims : ℕ → String → String → String → Statement
  beats : ℕ → String → String → Statement
  persists : ℕ → String → String → HttpResponse → Statement

unfoldable pub perform : Statement → Table → Table
perform (claims now t k hash expires_at) table =
    (claim_db_in_flight now t k hash expires_at table).1
perform (reclaims now t k hash) table = (reclaim_stale_db_in_flight now t k hash table).1
perform (beats now t k) table = heartbeat now t k table
perform (persists now t k response) table = persist_db_completed now t k response table

unfoldable pub perform_all : List Statement → Table → Table
perform_all [] table = table
perform_all (s ∷ ss) table = perform_all ss (perform s table)

-- Between `start` and the end of a lease from `start`, and no completion of the row.
abbrev pub IsDuring : String → String → ℕ → Statement → Type 0
IsDuring tenant key start (claims now _ _ _ _) = Unit
IsDuring tenant key start (reclaims now _ _ _) = now ≤ start + stale_in_flight_lease_duration
IsDuring tenant key start (beats now _ _) = start ≤ now
IsDuring tenant key start (persists _ t k _) = (t ≢ tenant) ⊎ (k ≢ key)

-- The row is there as it was claimed, in flight, and has been touched since `start`.
abbrev pub IsHeldRow : String → ℕ → ℕ → DbIdempotencyRecord → Type 0
IsHeldRow hash expires_at start row =
    (row.in_flight ≡ true)
    × (start ≤ row.updated_at)
    × (row.request_hash ≡ hash)
    × (row.expires_at ≡ expires_at)

abbrev pub IsLeased : String → String → String → ℕ → ℕ → Table → Type 0
IsLeased tenant key hash expires_at start table =
    (row : DbIdempotencyRecord) × (table tenant key ≡ some row)
    × IsHeldRow hash expires_at start row

module _ (tenant key held_hash : String) (expiry start : ℕ) (table : Table) where
  put_other :
      (t k : String) (row : DbIdempotencyRecord)
      → (t ≢ tenant) ⊎ (k ≢ key)
      → IsLeased tenant key held_hash expiry start table
      → IsLeased tenant key held_hash expiry start (put t k row table)
  put_other t k row other (r, there, held) =
      (r, ground (arith, eq_iff t tenant, eq_iff k key), held)

  -- A heartbeat of this row or of another.
  beat-IsLeased :
      (now : ℕ) (t k : String) (o : Option DbIdempotencyRecord)
      → table t k ≡ o
      → start ≤ now
      → IsLeased tenant key held_hash expiry start table
      → IsLeased tenant key held_hash expiry start (heartbeat_found now t k o table)
  unfolding heartbeat_found
  beat-IsLeased now t k none e b h = h
  beat-IsLeased now t k (some row) e b (r, there, held) = elim (Bool-cases row.in_flight) [
    | inr landed ↦ rw landed (r, there, held)
    | inl flying ↦ elim (Bool-cases (str_eq t tenant && str_eq k key)) [
      | inl same ↦
          let same_row : row ≡ r = ground (arith, eq_iff t tenant, eq_iff k key) in
          (
            record row { in_flight = true; updated_at = now },
            rw (flying, same) refl,
            (refl, b, ground arith, ground arith),
          )
      | inr other ↦ (r, rw (flying, other) there, held)
    ]
  ]

  differs : (t k : String) → table t k ≢ table tenant key → (t ≢ tenant) ⊎ (k ≢ key)
  differs t k n = ground (arith, eq_iff t tenant, eq_iff k key)

  -- A reclaim of this row comes too early; one of another row leaves this one.
  reclaim-IsLeased :
      (now : ℕ) (t k hash : String) (o : Option DbIdempotencyRecord)
      → table t k ≡ o
      → now ≤ start + stale_in_flight_lease_duration
      → IsLeased tenant key held_hash expiry start table
      → IsLeased tenant key held_hash expiry start (reclaim_found now t k hash o table).1
  unfolding reclaim_found
  reclaim-IsLeased now t k hash none e b h = h
  reclaim-IsLeased now t k hash (some row) e b h =
      elim (Bool-cases
        (row.in_flight && ltb (row.updated_at + stale_in_flight_lease_duration) now)) [
          | inl stale ↦
              let elsewhere : (t ≢ tenant) ⊎ (k ≢ key) =
                differs t k (λ same.
                  let same_row : some row ≡ some h.0 = sym e ∙ same ∙ h.1 in ground arith) in
              rw stale
                (put_other t k (record row { request_hash = hash; updated_at = now }) elsewhere h)
          | inr fresh ↦ rw fresh h
        ]

  claim-IsLeased :
      (now : ℕ) (t k hash : String) (expires_at : ℕ)
      → IsLeased tenant key held_hash expiry start table
      → IsLeased tenant key held_hash expiry start
          (claim_db_in_flight now t k hash expires_at table).1
  unfolding claim_db_in_flight
  claim-IsLeased now t k hash expires_at h = elim (Bool-cases (is_some (table t k))) [
    | inl taken ↦ rw taken h
    | inr free ↦
        let elsewhere : (t ≢ tenant) ⊎ (k ≢ key) = differs t k (λ same. ground arith) in
        rw free (put_other t k _ elsewhere h)
  ]

  persist-IsLeased :
      (now : ℕ) (t k : String) (response : HttpResponse) (o : Option DbIdempotencyRecord)
      → (t ≢ tenant) ⊎ (k ≢ key)
      → IsLeased tenant key held_hash expiry start table
      → IsLeased tenant key held_hash expiry start (persist_found now t k response o table)
  unfolding persist_found
  persist-IsLeased now t k response none other h = put_other t k _ other h
  persist-IsLeased now t k response (some row) other h = put_other t k _ other h

  perform-IsLeased :
      (s : Statement)
      → IsDuring tenant key start s
      → IsLeased tenant key held_hash expiry start table
      → IsLeased tenant key held_hash expiry start (perform s table)
  unfolding perform reclaim_stale_db_in_flight heartbeat persist_db_completed
  perform-IsLeased (claims now t k hash expires_at) d h = claim-IsLeased now t k hash expires_at h
  perform-IsLeased (reclaims now t k hash) d h = reclaim-IsLeased now t k hash (table t k) refl d h
  perform-IsLeased (beats now t k) d h = beat-IsLeased now t k (table t k) refl d h
  perform-IsLeased (persists now t k response) d h =
      persist-IsLeased now t k response (table t k) d h

perform_all-IsLeased :
    (tenant key hash : String) (expires_at start : ℕ) (ss : List Statement) (table : Table)
    → All (IsDuring tenant key start) ss
    → IsLeased tenant key hash expires_at start table
    → IsLeased tenant key hash expires_at start (perform_all ss table)
unfolding perform_all
perform_all-IsLeased tenant key hash expires_at start [] table d h = h
perform_all-IsLeased tenant key hash expires_at start (s ∷ ss) table d h =
    perform_all-IsLeased tenant key hash expires_at start ss (perform s table) d.1
      (perform-IsLeased tenant key hash expires_at start table s d.0 h)

claimed-IsLeased :
    (start : ℕ) (tenant key hash : String) (expires_at : ℕ) (table : Table)
    → (claim_db_in_flight start tenant key hash expires_at table).0 ≡ true
    → IsLeased tenant key hash expires_at start
        (claim_db_in_flight start tenant key hash expires_at table).1
unfolding claim_db_in_flight
claimed-IsLeased start tenant key hash expires_at table won =
    elim (Bool-cases (is_some (table tenant key))) [
      | inl taken ↦ ground arith
      | inr free ↦ rw free (
        claimed_row start hash expires_at,
        (ground (arith, eq_iff tenant tenant, eq_iff key key)),
        (refl, omega arith, refl, refl),
      )
    ]

-- A claimed row through any statements of the time of its lease.
pub claim-IsLeased_through :
    (start : ℕ) (tenant key hash : String) (expires_at : ℕ) (table : Table) (ss : List Statement)
    → (claim_db_in_flight start tenant key hash expires_at table).0 ≡ true
    → All (IsDuring tenant key start) ss
    → IsLeased tenant key hash expires_at start
        (perform_all ss (claim_db_in_flight start tenant key hash expires_at table).1)
claim-IsLeased_through start tenant key hash expires_at table ss won d =
    perform_all-IsLeased tenant key hash expires_at start ss _ d
      (claimed-IsLeased start tenant key hash expires_at table won)
