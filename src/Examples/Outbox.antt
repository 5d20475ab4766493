-- ===== src/Examples/Outbox.antt =====
-- Tests of outbox.go.
use ropus.Common.{
  ℕ, ◌+◌, ◌≤◌, ◌<◌, ◌≡◌, ◌≢◌, ◌↔◌, refl, inr, true, false, none, [], ◌∷◌, arith, ◌==◌,
}
use ropus.Common.Int.{pos, or_default}
use ropus.Outbox.Delivery.{
  OutboxEvent, delivered, exhausted, abandoned, World, attempts_from, process_with_retries,
}
use ropus.Outbox.Delivery.Attempts.{process_calls, process_quiet}
use ropus.Outbox.Queue.{
  DurableOutbox, new_durable_outbox, stamped, enqueue_check, enqueue_send, enqueue_count, receive,
  process, settled, worker_return, begin_close, close_queue,
}
use ropus.Outbox.Steps.{
  checks, sends, counts, receives, processes, returns, begins_close, closes_queue, Steps, done,
  then_step, Reachable,
}
use ropus.Outbox.Kept.{IsAccounted}
use ropus.Outbox.Accounts.{reached-IsAccounted}
use ropus.Outbox.Close.{clean_close_lem, close_race}

abbrev event : OutboxEvent
event = record {
  event_id = "e1";
  event_type = "decision";
  timestamp = none;
  correlation_id = "c1";
  payload = 1 ∷ 2 ∷ [];
  metadata = [];
  retry_count = pos 0;
  max_retries = pos 2;
  initial_backoff = pos 0;
}

-- The dispatcher takes the event at its second attempt.
abbrev second_try : World
second_try = record {
  is_cancelled = λ a. false;
  dispatches = λ a. a == 1;
  is_cut_short = λ a. false;
}

abbrev refusing : World
refusing = record second_try { dispatches = λ a. false }

second_try_delivers : process_with_retries second_try event ≡ (delivered, 2)
unfolding process_with_retries attempts_from
second_try_delivers = refl

refusing_exhausts : process_with_retries refusing event ≡ (exhausted, 3)
unfolding process_with_retries attempts_from
refusing_exhausts = refl

process_calls_example :
    let (outcome, calls) = process_with_retries second_try event in
    (calls ≤ or_default 3 event.max_retries + 1)
    × ((i : ℕ) → i + 1 < calls → second_try.dispatches i ≡ false)
    × ((i : ℕ) → i + 1 ≡ calls → (outcome ≡ delivered) ↔ (second_try.dispatches i ≡ true))
    × (outcome ≡ exhausted → calls ≡ or_default 3 event.max_retries + 1)
process_calls_example = process_calls second_try event

process_quiet_example : (process_with_retries second_try event).0 ≢ abandoned
process_quiet_example = process_quiet second_try event (λ a. (refl, refl))

abbrev opened : DurableOutbox
opened = new_durable_outbox (pos 1) (pos 1)

abbrev sent : OutboxEvent
sent = stamped 7 event

abbrev checked : DurableOutbox
checked = (enqueue_check 7 event opened).1

abbrev queued : DurableOutbox
queued = enqueue_count (enqueue_send sent [] checked)

abbrev held : DurableOutbox
held = receive sent [] queued

abbrev closing : DurableOutbox
closing = close_queue (begin_close (process second_try sent [] held)).1

abbrev closed : DurableOutbox
closed = worker_return closing

closed-Reachable : Reachable (pos 1) (pos 1) closed
unfolding new_durable_outbox enqueue_check enqueue_send enqueue_count receive process settled
    process_with_retries attempts_from worker_return begin_close close_queue
closed-Reachable =
    let first : Steps opened checked = then_step done refl (checks 7 event) in
    let second = then_step first refl (sends [] sent [] refl) in
    let third : Steps opened queued = then_step second refl (counts (omega arith)) in
    let fourth : Steps opened held = then_step third refl (receives sent [] refl (omega arith)) in
    let fifth : Steps opened (process second_try sent [] held) =
      then_step fourth refl (processes second_try [] sent [] refl (λ q a. (refl, refl))) in
    let sixth = then_step fifth refl begins_close in
    let seventh : Steps opened closing = then_step sixth refl (closes_queue refl refl) in
    then_step seventh refl (returns (omega arith) (inr (refl, refl)))

reached-IsAccounted_example : IsAccounted closed
reached-IsAccounted_example = reached-IsAccounted (pos 1) (pos 1) closed closed-Reachable

closed_returned : (closed.is_cancelled ≡ false) × (closed.returned ≡ closed.workers)
unfolding new_durable_outbox enqueue_check enqueue_send enqueue_count receive process settled
    process_with_retries attempts_from worker_return begin_close close_queue
closed_returned = (refl, refl)

clean_close_lem_example :
    (closed.queue ≡ [])
    × (closed.in_flight ≡ [])
    × (closed.delivered_count + closed.failed_count ≡ closed.queued_count + closed.uncounted)
clean_close_lem_example =
    clean_close_lem (pos 1) (pos 1) closed closed-Reachable closed_returned.0 closed_returned.1

close_race_example : (p : DurableOutbox) × Steps opened p × (p.is_panicked ≡ true)
close_race_example =
    close_race opened 7 event (unfold new_durable_outbox in refl)
      (unfold new_durable_outbox in refl) (unfold new_durable_outbox in refl)
