-- ===== src/Outbox/Close.antt =====
-- What closing the outbox comes to: nothing is lost by a clean close, and a producer that comes
-- between the test and the send panics.
use ropus.Common.{ℕ, ◌+◌, ◌<◌, ◌≡◌, true, false, [], ◌∷◌, arith, length}
use ropus.Common.Int.{ℤ}
use ropus.Outbox.Delivery.{OutboxEvent}
use ropus.Outbox.Queue.{
  DurableOutbox, stamped, enqueue_check, enqueue_send, begin_close, close_queue,
}
use ropus.Outbox.Steps.{
  checks, sends, begins_close, closes_queue, Steps, done, then_step, Reachable,
}
use ropus.Outbox.Accounts.{reached-IsAccounted}

-- In every state that a new outbox reaches where all workers have returned and nothing has been
-- cancelled, the queue is empty, no event is held, and every event that was sent has been delivered or
-- has failed.
pub clean_close_lem :
    (workers max_queue_size : ℤ) (o : DurableOutbox)
    → Reachable workers max_queue_size o
    → o.is_cancelled ≡ false
    → o.returned ≡ o.workers
    → (o.queue ≡ [])
      × (o.in_flight ≡ [])
      × (o.delivered_count + o.failed_count ≡ o.queued_count + o.uncounted)
clean_close_lem workers max_queue_size o r c a =
    let h = reached-IsAccounted workers max_queue_size o r in
    let some_returned : 0 < o.returned = omega (arith, h.some_worker) in
    let empty = (h.drained c some_returned).1 in
    let none_held : length o.in_flight ≡ 0 = omega (arith, h.all_workers) in
    (empty, ground arith, ground (arith, h.accepted, h.kept c))

-- A state in which nobody has begun to close the outbox and nothing has panicked can come to panic,
-- by an event of any producer: the producer passes the test, the outbox is closed, and the producer
-- sends on the closed channel.
pub close_race :
    (o : DurableOutbox) (now : ℕ) (e : OutboxEvent)
    → o.is_closed ≡ false
    → o.is_queue_closed ≡ false
    → o.is_panicked ≡ false
    → (p : DurableOutbox) × Steps o p × (p.is_panicked ≡ true)
unfolding enqueue_check enqueue_send begin_close close_queue
close_race o now e c q n =
    let p = (enqueue_check now e o).1 in
    let s = close_queue (begin_close p).1 in
    let ready : s.sending ≡ stamped now e ∷ o.sending = ground arith in
    let first : Steps o p = then_step done n (checks now e) in
    let second = then_step first (ground arith) begins_close in
    let third : Steps o s =
      then_step second (ground arith) (closes_queue (ground arith) (ground arith)) in
    (
      enqueue_send (stamped now e) o.sending s,
      then_step third (ground arith) (sends [] (stamped now e) o.sending ready),
      ground arith,
    )
