-- ===== src/Idempotency/Table.antt =====
-- The table `idempotency_records` and the statements on it. `now` is the server's `NOW()`; times
-- count nanoseconds. The response headers stand for their JSON.
use ropus.Common.{
  ℕ, ◌+◌, String, str_eq, Bool, true, false, ◌&&◌, Option, none, some, List, [], if◌then◌else◌, ltb,
  is_some,
}
use ropus.Common.Dict.{Dict}
use ropus.Idempotency.Store.{HttpResponse}

pub record DbIdempotencyRecord : Type 0 where
  pub request_hash : String
  pub response_status : Option ℕ
  pub response_headers : Dict (List String)
  pub response_body : List ℕ
  pub in_flight : Bool
  pub created_at : ℕ
  pub updated_at : ℕ
  pub expires_at : ℕ

-- The rows by tenant and key, which are unique.
abbrev pub Table : Type 0
Table = String → String → Option DbIdempotencyRecord

abbrev pub put : String → String → DbIdempotencyRecord → Table → Table
put tenant key row table t k = if str_eq tenant t && str_eq key k then some row else table t k

-- A missing status is read as 200.
abbrev pub response_of : DbIdempotencyRecord → HttpResponse
response_of row = record {
  status = elim (row.response_status) [ none ↦ 200 | some code ↦ code ];
  headers = row.response_headers;
  body = row.response_body;
}

-- The row that a claim inserts.
abbrev pub claimed_row : ℕ → String → ℕ → DbIdempotencyRecord
claimed_row now hash expires_at = record {
  request_hash = hash;
  response_status = none;
  response_headers = [];
  response_body = [];
  in_flight = true;
  created_at = now;
  updated_at = now;
  expires_at = expires_at;
}

unfoldable pub claim_db_in_flight : ℕ → String → String → String → ℕ → Table → Bool × Table
claim_db_in_flight now tenant key hash expires_at table =
    if is_some (table tenant key)
    then (false, table)
    else (true, put tenant key (claimed_row now hash expires_at) table)

-- `StaleInFlightLeaseDuration`
abbrev pub stale_in_flight_lease_duration : ℕ
stale_in_flight_lease_duration = 10000000000

unfoldable pub reclaim_found :
    ℕ → String → String → String → Option DbIdempotencyRecord → Table → Bool × Table
reclaim_found now tenant key hash none table = (false, table)
reclaim_found now tenant key hash (some row) table =
    if row.in_flight && ltb (row.updated_at + stale_in_flight_lease_duration) now
    then (true, put tenant key (record row { request_hash = hash; updated_at = now }) table)
    else (false, table)

unfoldable pub reclaim_stale_db_in_flight : ℕ → String → String → String → Table → Bool × Table
unfolding reclaim_found
reclaim_stale_db_in_flight now tenant key hash table =
    reclaim_found now tenant key hash (table tenant key) table

unfoldable pub heartbeat_found : ℕ → String → String → Option DbIdempotencyRecord → Table → Table
heartbeat_found now tenant key none table = table
heartbeat_found now tenant key (some row) table =
    if row.in_flight then put tenant key (record row { updated_at = now }) table else table

unfoldable pub heartbeat : ℕ → String → String → Table → Table
unfolding heartbeat_found
heartbeat now tenant key table = heartbeat_found now tenant key (table tenant key) table

unfoldable pub persist_found :
    ℕ → String → String → HttpResponse → Option DbIdempotencyRecord → Table → Table
persist_found now tenant key response none table =
    put tenant key
      (record {
        request_hash = "";
        response_status = some response.status;
        response_headers = response.headers;
        response_body = response.body;
        in_flight = false;
        created_at = now;
        updated_at = now;
        expires_at = now + 900000000000;
      })
      table
persist_found now tenant key response (some row) table =
    put tenant key
      (record row {
        response_status = some response.status;
        response_headers = response.headers;
        response_body = response.body;
        in_flight = false;
        updated_at = now;
      })
      table

unfoldable pub persist_db_completed : ℕ → String → String → HttpResponse → Table → Table
unfolding persist_found
persist_db_completed now tenant key response table =
    persist_found now tenant key response (table tenant key) table
