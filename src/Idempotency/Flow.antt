-- ===== src/Idempotency/Flow.antt =====
-- The middleware's use of the database, from the first query to the decision. Between two statements
-- other pods may change the table.
use ropus.Common.{
  ℕ, zero, suc, ◌+◌, String, str_eq, Bool, false, not, ◌&&◌, Option, none, some, if◌then◌else◌, ltb,
  leb,
}
use ropus.Idempotency.Store.{HttpResponse}
use ropus.Idempotency.Table.{
  DbIdempotencyRecord, Table, response_of, claim_db_in_flight, stale_in_flight_lease_duration,
  reclaim_stale_db_in_flight,
}

-- Statement number `n` is preceded by what others do, reads the server's clock, and may fail. A
-- statement that fails has no effect, or one that counts as done by others.
pub record World : Type 0 where
  pub meanwhile : ℕ → Table → Table
  pub clock : ℕ → ℕ
  pub fails : ℕ → Bool

pub data Decision : Type 0 where
  db_conflict : Decision
  db_replays : HttpResponse → Decision
  db_executes : Decision

-- One request: its tenant, key and hash, the time that it has read, and its time to live. The
-- numbers of polls that its two waits make are parameters: each ends after three seconds, or with
-- the request's context.
pub record Query : Type 0 where
  pub tenant : String
  pub key : String
  pub hash : String
  pub now : ℕ
  pub ttl : ℕ
  pub first_polls : ℕ
  pub second_polls : ℕ

abbrev pub State : Type 0
State = ℕ × Table

module _ (w : World) (q : Query) where
  -- An error is none.
  unfoldable pub fetch_db_record : State → Option (Option DbIdempotencyRecord) × State
  fetch_db_record (n, table) =
      let table' = w.meanwhile n table in
      (if w.fails n then none else some (table' q.tenant q.key), (n + 1, table'))

  unfoldable pub claim : State → Bool × State
  claim (n, table) =
      let table' = w.meanwhile n table in
      let (claimed, after) =
        claim_db_in_flight (w.clock n) q.tenant q.key q.hash (q.now + q.ttl) table' in
      if w.fails n then (false, (n + 1, table')) else (claimed, (n + 1, after))

  unfoldable pub reclaim : State → Bool × State
  reclaim (n, table) =
      let table' = w.meanwhile n table in
      let (reclaimed, after) =
        reclaim_stale_db_in_flight (w.clock n) q.tenant q.key q.hash table' in
      if w.fails n then (false, (n + 1, table')) else (reclaimed, (n + 1, after))

  -- Whether a poll ends the wait.
  abbrev pub is_settled : Option (Option DbIdempotencyRecord) → Option DbIdempotencyRecord
  is_settled none = none
  is_settled (some none) = none
  is_settled (some (some row)) =
      if not (str_eq row.request_hash q.hash)
      then some row
      else if not row.in_flight
      then some row
      else none

  unfoldable pub wait_for_db_completion : ℕ → State → Option DbIdempotencyRecord × State
  wait_for_db_completion zero s = (none, s)
  wait_for_db_completion (suc polls) s =
      let (answer, s') = fetch_db_record s in
      let later = wait_for_db_completion polls s' in
      elim (is_settled answer) [ none ↦ later | some row ↦ (some row, s') ]

  -- A row that has ended a wait.
  abbrev pub settle : DbIdempotencyRecord → Decision
  settle row =
      if not (str_eq row.request_hash q.hash) then db_conflict else db_replays (response_of row)

  abbrev pub is_stale : DbIdempotencyRecord → Bool
  is_stale row = leb (row.updated_at + stale_in_flight_lease_duration) q.now

  -- After a lost claim: a wait, and the execution where the wait comes to nothing.
  unfoldable pub wait_or_execute : State → Decision × State
  wait_or_execute s =
      let (settled, s') = wait_for_db_completion q.second_polls s in
      elim settled [ none ↦ (db_executes, s') | some row ↦ (settle row, s') ]

  -- Whether the record that the claim has lost against is in flight and stale.
  abbrev pub lost_to_stale : Option (Option DbIdempotencyRecord) → Bool
  lost_to_stale none = false
  lost_to_stale (some none) = false
  lost_to_stale (some (some row)) = row.in_flight && is_stale row

  unfoldable pub after_lost_claim : State → Decision × State
  after_lost_claim s =
      let (answer, s') = fetch_db_record s in
      let (reclaimed, s'') = reclaim s' in
      if lost_to_stale answer
      then (if reclaimed then (db_executes, s'') else wait_or_execute s'')
      else wait_or_execute s'

  unfoldable pub try_claim : State → Decision × State
  try_claim s =
      let (claimed, s') = claim s in if claimed then (db_executes, s') else after_lost_claim s'

  unfoldable pub wait_or_claim : State → Decision × State
  wait_or_claim s =
      let (settled, s') = wait_for_db_completion q.first_polls s in
      elim settled [ none ↦ try_claim s' | some row ↦ (settle row, s') ]

  unfoldable pub on_row : DbIdempotencyRecord → State → Decision × State
  on_row row s =
      let (reclaimed, s') = reclaim s in
      if not (str_eq row.request_hash q.hash)
      then (db_conflict, s)
      else if not row.in_flight
      then (db_replays (response_of row), s)
      else if is_stale row
      then (if reclaimed then (db_executes, s') else wait_or_claim s')
      else wait_or_claim s

  unfoldable pub on_answer : Option (Option DbIdempotencyRecord) → State → Decision × State
  on_answer none s = try_claim s
  on_answer (some none) s = try_claim s
  on_answer (some (some row)) s = if ltb q.now row.expires_at then on_row row s else try_claim s

  unfoldable pub decide : State → Decision × State
  decide s = let (answer, s') = fetch_db_record s in on_answer answer s'
