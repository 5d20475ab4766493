-- ===== src/Idempotency/Durable.antt =====
-- What the middleware decides from the database.
use ropus.Common.{
  ℕ, zero, suc, ◌+◌, ◌<◌, ◌≡◌, ◌≢◌, refl, inl, inr, Bool-cases, String, str_eq, eq_iff, true, false,
  ◌&&◌, none, some, List, All, ◌∙◌, ap, arith, if◌then◌else◌, ltb, leb,
}
use ropus.Idempotency.Store.{HttpResponse}
use ropus.Idempotency.Table.{
  DbIdempotencyRecord, Table, response_of, claim_db_in_flight, stale_in_flight_lease_duration,
  persist_found, persist_db_completed,
}
use ropus.Idempotency.Flow.{
  World, db_conflict, db_replays, db_executes, Query, State, fetch_db_record, claim,
  wait_for_db_completion, wait_or_execute, after_lost_claim, try_claim, wait_or_claim, on_row,
  on_answer, decide,
}
use ropus.Idempotency.Lease.{Statement, perform_all, IsDuring, claim-IsLeased_through}

-- The first query finds a row that has not expired, and that is complete or has another hash.
decide_known :
    (w : World) (q : Query) (n : ℕ) (table : Table) (row : DbIdempotencyRecord)
    → w.fails n ≡ false
    → w.meanwhile n table q.tenant q.key ≡ some row
    → q.now < row.expires_at
    → (str_eq row.request_hash q.hash && row.in_flight) ≡ false
    → decide w q (n, table) ≡ (
      (if str_eq row.request_hash q.hash then db_replays (response_of row) else db_conflict),
      (n + 1, w.meanwhile n table),
    )
unfolding decide fetch_db_record on_answer on_row
decide_known w q n table row up there live known =
    let is_live : ltb q.now row.expires_at ≡ true = ground arith in
    elim (Bool-cases (str_eq row.request_hash q.hash)) [
      | inl same ↦
          let landed : row.in_flight ≡ false = ground arith in
          rw (up, there, is_live, same, landed) refl
      | inr other ↦ rw (up, there, is_live, other) refl
    ]

persisted :
    (now : ℕ) (tenant key : String) (response : HttpResponse) (table : Table)
    (row : DbIdempotencyRecord)
    → table tenant key ≡ some row
    → persist_db_completed now tenant key response table tenant key
      ≡ some (record row {
        response_status = some response.status;
        response_headers = response.headers;
        response_body = response.body;
        in_flight = false;
        updated_at = now;
      })
unfolding persist_db_completed persist_found
persisted now tenant key response table row there =
    rw there (ground (arith, eq_iff tenant tenant, eq_iff key key))

persisted_absent :
    (now : ℕ) (tenant key : String) (response : HttpResponse) (table : Table)
    → table tenant key ≡ none
    → persist_db_completed now tenant key response table tenant key
      ≡ some (record {
        request_hash = "";
        response_status = some response.status;
        response_headers = response.headers;
        response_body = response.body;
        in_flight = false;
        created_at = now;
        updated_at = now;
        expires_at = now + 900000000000;
      })
unfolding persist_db_completed persist_found
persisted_absent now tenant key response table absent =
    rw absent (ground (arith, eq_iff tenant tenant, eq_iff key key))

-- The same answer across pods. A pod claims the row of a query's key; statements of any pods follow,
-- in which nobody completes the row, no reclaim comes later than ten seconds after the claim, and no
-- heartbeat comes before the claim; then the pod stores its response. When the query finds the row
-- as it was stored, before its expiry, it is decided by the hash of the claim: it is answered with
-- the stored response, or it is a conflict. The table stays as it is found.
pub stored_decides :
    (w : World) (q : Query) (n start : ℕ) (hash : String) (expires_at : ℕ) (table : Table)
    (ss : List Statement) (end : ℕ) (response : HttpResponse) (found : Table)
    → (claim_db_in_flight start q.tenant q.key hash expires_at table).0 ≡ true
    → All (IsDuring q.tenant q.key start) ss
    → let claimed = (claim_db_in_flight start q.tenant q.key hash expires_at table).1 in
      w.meanwhile n found q.tenant q.key
        ≡ persist_db_completed end q.tenant q.key response (perform_all ss claimed) q.tenant q.key
      → w.fails n ≡ false
      → q.now < expires_at
      → decide w q (n, found) ≡ (
        (if str_eq hash q.hash then db_replays response else db_conflict),
        (n + 1, w.meanwhile n found),
      )
stored_decides w q n start hash expires_at table ss end response found won d same up live =
    let claimed = (claim_db_in_flight start q.tenant q.key hash expires_at table).1 in
    let (row, there, (flying, touched, hashed, until)) =
      claim-IsLeased_through start q.tenant q.key hash expires_at table ss won d in
    let stored = persisted end q.tenant q.key response (perform_all ss claimed) row there in
    decide_known w q n found _ up (same ∙ stored) (omega (arith, live, until)) (ground arith)
    ∙ rw hashed refl

-- A response that is stored where no row is, because the claim has failed, is stored under the empty
-- hash: a later query for the key that finds it, and whose hash is not empty, is a conflict for
-- fifteen minutes, whatever its payload.
pub unclaimed_conflicts :
    (w : World) (q : Query) (n : ℕ) (end : ℕ) (response : HttpResponse) (table found : Table)
    → table q.tenant q.key ≡ none
    → w.meanwhile n found q.tenant q.key
      ≡ persist_db_completed end q.tenant q.key response table q.tenant q.key
    → w.fails n ≡ false
    → q.hash ≢ ""
    → q.now < end + 900000000000
    → (decide w q (n, found)).0 ≡ db_conflict
unclaimed_conflicts w q n end response table found absent same up hashed live =
    let other : str_eq "" q.hash ≡ false = ground (arith, eq_iff "" q.hash) in
    let stored = persisted_absent end q.tenant q.key response table absent in
    ap (λ d. d.0) (decide_known w q n found _ up (same ∙ stored) live (rw other refl))
    ∙ rw other refl

-- Another pod has the row in flight, fresh and under the query's own hash, at every statement.
abbrev pub IsBusy : World → Query → Type 0
IsBusy w q =
    (i : ℕ) (before : Table)
    → (w.fails i ≡ false)
      × ((row : DbIdempotencyRecord) × (w.meanwhile i before q.tenant q.key ≡ some row)
          × (row.in_flight ≡ true)
          × (row.request_hash ≡ q.hash)
          × (q.now < row.updated_at + stale_in_flight_lease_duration)
          × (q.now < row.expires_at))

module _ (w : World) (q : Query) (busy : IsBusy w q) where
  -- The row that a statement meets, and the tests on it.
  met :
      (i : ℕ) (before : Table)
      → (w.fails i ≡ false)
        × ((row : DbIdempotencyRecord) × (w.meanwhile i before q.tenant q.key ≡ some row)
            × (row.in_flight ≡ true)
            × (str_eq row.request_hash q.hash ≡ true)
            × (leb (row.updated_at + stale_in_flight_lease_duration) q.now ≡ false)
            × (ltb q.now row.expires_at ≡ true))
  met i before =
      let (up, (row, there, flying, same, fresh, live)) = busy i before in
      (
        up,
        (
          row,
          there,
          flying,
          ground (arith, eq_iff row.request_hash q.hash),
          ground arith,
          ground arith,
        ),
      )

  busy_wait : (polls : ℕ) (s : State) → (wait_for_db_completion w q polls s).0 ≡ none
  unfolding wait_for_db_completion fetch_db_record
  busy_wait zero s = refl
  busy_wait (suc polls) (n, table) =
      let (up, (row, there, flying, same, fresh, live)) = met n table in
      rw (up, there, same, flying, wait_for_db_completion)
        (busy_wait polls (n + 1, w.meanwhile n table))

  busy_claim : (s : State) → (claim w q s).0 ≡ false
  unfolding claim claim_db_in_flight
  busy_claim (n, table) =
      let (up, (row, there, flying, same, fresh, live)) = met n table in rw (up, there) refl

  busy_wait_or_execute : (s : State) → (wait_or_execute w q s).0 ≡ db_executes
  unfolding wait_or_execute
  busy_wait_or_execute s = rw (busy_wait q.second_polls s, wait_or_execute) refl

  busy_after_lost_claim : (s : State) → (after_lost_claim w q s).0 ≡ db_executes
  unfolding after_lost_claim fetch_db_record
  busy_after_lost_claim (n, table) =
      let (up, (row, there, flying, same, fresh, live)) = met n table in
      rw (up, there, flying, fresh) (busy_wait_or_execute (n + 1, w.meanwhile n table))

  busy_try_claim : (s : State) → (try_claim w q s).0 ≡ db_executes
  unfolding try_claim
  busy_try_claim s = rw (busy_claim s) (busy_after_lost_claim (claim w q s).1)

  busy_wait_or_claim : (s : State) → (wait_or_claim w q s).0 ≡ db_executes
  unfolding wait_or_claim
  busy_wait_or_claim s =
      rw (busy_wait q.first_polls s, wait_or_claim)
        (busy_try_claim (wait_for_db_completion w q q.first_polls s).1)

-- The wait for another pod does not end in a claim. While another pod executes, with its row in
-- flight, fresh and unexpired under the query's own hash at every statement, the query is still
-- decided to execute once its waits come to nothing, however long they are.
pub wait_out_executes :
    (w : World) (q : Query) (n : ℕ) (table : Table)
    → IsBusy w q
    → (decide w q (n, table)).0 ≡ db_executes
unfolding decide fetch_db_record on_answer on_row
wait_out_executes w q n table busy =
    let (up, (row, there, flying, same, fresh, live)) = met w q busy n table in
    rw (up, there, live, same, flying, fresh)
      (busy_wait_or_claim w q busy (n + 1, w.meanwhile n table))
