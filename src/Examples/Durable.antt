-- ===== src/Examples/Durable.antt =====
-- Tests of the database layer of idempotency.go.
use ropus.Common.{◌≡◌, refl, str_eq, true, false, none, List, [], ◌∷◌, arith, if◌then◌else◌}
use ropus.Idempotency.Store.{HttpResponse}
use ropus.Idempotency.Table.{Table, put, claimed_row, claim_db_in_flight, persist_db_completed}
use ropus.Idempotency.Flow.{World, db_conflict, db_replays, db_executes, Query, decide}
use ropus.Idempotency.Lease.{Statement, claims, reclaims, beats, perform_all}
use ropus.Idempotency.Durable.{stored_decides, IsBusy, wait_out_executes}

abbrev empty : Table
empty t k = none

abbrev claimed : Table
claimed = (claim_db_in_flight 5 "t" "k" "h" 1000 empty).1

claim_won : (claim_db_in_flight 5 "t" "k" "h" 1000 empty).0 ≡ true
unfolding claim_db_in_flight
claim_won = refl

abbrev others : List Statement
others = claims 6 "t" "k" "h" 1001 ∷ beats 7 "t" "k" ∷ reclaims 8 "t" "k" "g" ∷ []

abbrev alone : World
alone = record { meanwhile = λ n table. table; clock = λ n. n; fails = λ n. false }

abbrev query : Query
query = record {
  tenant = "t";
  key = "k";
  hash = "h";
  now = 20;
  ttl = 900000000000;
  first_polls = 3;
  second_polls = 2;
}

abbrev answer : HttpResponse
answer = record { status = 201; headers = []; body = 7 ∷ [] }

abbrev stored : Table
stored = persist_db_completed 10 "t" "k" answer (perform_all others claimed)

stored_decides_example :
    decide alone query (0, stored)
    ≡ ((if str_eq "h" "h" then db_replays answer else db_conflict), (1, stored))
stored_decides_example =
    stored_decides alone query 0 5 "h" 1000 empty others 10 answer stored claim_won
      (tt, (omega arith, (omega arith, tt))) refl refl (omega arith)

-- Another pod keeps its row in flight.
abbrev busy : World
busy = record alone { meanwhile = λ n table. put "t" "k" (claimed_row 5 "h" 1000) table }

busy-IsBusy : IsBusy busy query
busy-IsBusy i before = (refl, (claimed_row 5 "h" 1000, refl, refl, refl, omega arith, omega arith))

wait_out_executes_example : (decide busy query (0, empty)).0 ≡ db_executes
wait_out_executes_example = wait_out_executes busy query 0 empty busy-IsBusy
