-- ===== src/Examples/Idempotency.antt =====
-- Tests of idempotency.go.
use ropus.Common.{
  ℕ, ◌≡◌, refl, String, str_eq, eq_iff, false, some, List, [], ◌∷◌, arith, if◌then◌else◌,
}
use ropus.Common.Int.{pos}
use ropus.Idempotency.Store.{
  HttpResponse, new_idempotency_store, conflict, waits, Request, register, admit_found, admit,
  enter, compute_request_hash, replay, complete,
}
use ropus.Idempotency.Steps.{Pod, new_pod, entered, ticks, enters, Steps, done, then_step}
use ropus.Idempotency.Once.{at_most_once}
use ropus.Idempotency.Capacity.{IsBounded, reached-IsBounded}
use ropus.Idempotency.Replay.{replay_faithful}

abbrev sha : String → List ℕ → String
sha text body = text

abbrev order : Request
order = record {
  method = "POST";
  path = "/v1/decide";
  tenant_id = "t";
  key = "k";
  body = some (1 ∷ []);
}

abbrev pod : Pod
pod = new_pod false (pos 100) (pos 2)

abbrev at : ℕ → Pod → Pod
at now p = record p { clock = now }

abbrev running : Pod
running = entered sha 5 order (at 5 pod)

running_trace : Steps pod running
unfolding new_idempotency_store
running_trace =
    then_step (then_step done (ticks 5 (omega arith))) (enters sha 5 order refl refl (omega arith))

abbrev other_path : Request
other_path = record order { path = "/v1/other" }

waits_then_conflicts :
    ((enter sha 6 order running.store).0 ≡ waits 0)
    × ((enter sha 6 other_path running.store).0 ≡ conflict)
unfolding new_idempotency_store enter admit admit_found register
waits_then_conflicts = (refl, refl)

at_most_once_example : (enter sha 6 other_path running.store).0 ≡ (
    if str_eq
      (running.store.heap 0).request_hash
      (compute_request_hash sha "POST" "/v1/other" (1 ∷ []))
    then waits 0
    else conflict)
unfolding new_idempotency_store enter admit admit_found register
at_most_once_example =
    at_most_once (pos 100) (pos 2) running sha 6 0 other_path (1 ∷ []) running_trace (omega arith)
      (omega arith) (omega arith) (omega arith) refl (ground (arith, eq_iff "k" "")) refl refl

abbrev answer : HttpResponse
answer = record { status = 201; headers = []; body = 7 ∷ [] }

-- A second request waits; then the first one completes.
abbrev waiting : Pod
waiting = entered sha 6 order (at 6 running)

waiting_trace : Steps pod waiting
unfolding new_idempotency_store enter admit admit_found register
waiting_trace =
    then_step (then_step running_trace (ticks 6 (omega arith)))
      (enters sha 6 order refl refl (omega arith))

waiting_running : waiting.running ≡ 0 ∷ []
unfolding new_idempotency_store enter admit admit_found register
waiting_running = refl

replay_faithful_example : (replay 0 (complete 0 answer waiting.store)).0 ≡ answer
replay_faithful_example =
    replay_faithful false (pos 100) (pos 2) waiting
      (record waiting { store = complete 0 answer waiting.store; running = [] }) [] 0 [] answer
      waiting_trace waiting_running done

-- The handler panics; then the same request comes again and waits; then a request without a key
-- passes.
abbrev panicked : Pod
panicked = record running { running = [] }

abbrev stuck : Pod
stuck = entered sha 6 order (at 6 panicked)

reached-IsBounded_example : IsBounded waiting.store
reached-IsBounded_example = reached-IsBounded false (pos 100) (pos 2) waiting waiting_trace
