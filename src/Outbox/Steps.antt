-- ===== src/Outbox/Steps.antt =====
-- The interleavings of producers, workers and the closing goroutine of outbox.go.
use ropus.Common.{ℕ, ◌<◌, ◌≡◌, ◌⊎◌, Bool, true, false, List, [], ◌∷◌, ◌++◌}
use ropus.Common.Int.{ℤ}
use ropus.Outbox.Delivery.{OutboxEvent, World, IsQuiet}
use ropus.Outbox.Queue.{
  DurableOutbox, new_durable_outbox, enqueue_check, enqueue_send, enqueue_count, receive, process,
  worker_return, begin_close, close_queue, end_close,
}

pub data Step (o : DurableOutbox) : DurableOutbox → Type 0 where
  checks : (now : ℕ) (e : OutboxEvent) → Step o (enqueue_check now e o).1
  sends :
      (before : List OutboxEvent) (e : OutboxEvent) (after : List OutboxEvent)
      → o.sending ≡ before ++ (e ∷ after)
      → Step o (enqueue_send e (before ++ after) o)
  counts : 0 < o.uncounted → Step o (enqueue_count o)
  receives :
      (e : OutboxEvent) (rest : List OutboxEvent)
      → o.queue ≡ e ∷ rest
      → 0 < o.idle
      → Step o (receive e rest o)
  processes :
      (w : World) (before : List OutboxEvent) (e : OutboxEvent) (after : List OutboxEvent)
      → o.in_flight ≡ before ++ (e ∷ after)
      → (o.is_cancelled ≡ false → IsQuiet w)
      → Step o (process w e (before ++ after) o)
  returns :
      0 < o.idle
      → (o.is_cancelled ≡ true) ⊎ ((o.is_queue_closed ≡ true) × (o.queue ≡ []))
      → Step o (worker_return o)
  begins_close : Step o (begin_close o).1
  closes_queue : o.is_closed ≡ true → o.is_queue_closed ≡ false → Step o (close_queue o)
  ends_close :
      (is_timed_out : Bool)
      → o.is_queue_closed ≡ true
      → (is_timed_out ≡ false → o.returned ≡ o.workers)
      → Step o (end_close is_timed_out o).1

-- From one state to another; after a panic there is no further step.
pub data Steps (o : DurableOutbox) : DurableOutbox → Type 0 where
  done : Steps o o
  then_step : {p q : DurableOutbox} → Steps o p → p.is_panicked ≡ false → Step p q → Steps o q

abbrev pub Reachable : ℤ → ℤ → DurableOutbox → Type 0
Reachable workers max_queue_size o = Steps (new_durable_outbox workers max_queue_size) o
