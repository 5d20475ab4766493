-- ===== src/Outbox/Queue.antt =====
-- `DurableOutbox` of outbox.go: one function per step that another goroutine can come between.
-- `is_panicked` stands for the panic of a send on the closed channel.
use ropus.Common.{
  ℕ, ◌+◌, ◌-◌, Bool, true, false, Option, none, some, List, [], ◌∷◌, ◌++◌, length, if◌then◌else◌,
  ltb, not,
}
use ropus.Common.Int.{ℤ, or_default}
use ropus.Outbox.Delivery.{
  OutboxEvent, Outcome, delivered, exhausted, abandoned, World, with_defaults, process_with_retries,
}

-- The goroutines are part of the state: the producers that have found the outbox open and not yet
-- sent, those that have sent and not yet counted, the idle workers, the events that the busy workers
-- hold, the workers that have returned, and the events given up at cancellation.
pub record DurableOutbox : Type 0 where
  pub queue : List OutboxEvent
  pub max_queue_size : ℕ
  pub workers : ℕ
  pub is_closed : Bool
  pub is_queue_closed : Bool
  pub is_cancelled : Bool
  pub is_panicked : Bool
  pub sending : List OutboxEvent
  pub uncounted : ℕ
  pub idle : ℕ
  pub in_flight : List OutboxEvent
  pub returned : ℕ
  pub given_up : ℕ
  pub dead_letter_log : List OutboxEvent
  pub queued_count : ℕ
  pub delivered_count : ℕ
  pub failed_count : ℕ
  pub dropped_count : ℕ

unfoldable pub new_durable_outbox : ℤ → ℤ → DurableOutbox
new_durable_outbox workers max_queue_size = record {
  queue = [];
  max_queue_size = or_default 10000 max_queue_size;
  workers = or_default 4 workers;
  is_closed = false;
  is_queue_closed = false;
  is_cancelled = false;
  is_panicked = false;
  sending = [];
  uncounted = 0;
  idle = or_default 4 workers;
  in_flight = [];
  returned = 0;
  given_up = 0;
  dead_letter_log = [];
  queued_count = 0;
  delivered_count = 0;
  failed_count = 0;
  dropped_count = 0;
}

abbrev pub stamped : ℕ → OutboxEvent → OutboxEvent
stamped now e = record e { timestamp = elim (e.timestamp) [ none ↦ some now | some t ↦ some t ] }

-- The head of `Enqueue`: the test of `isClosed`; what it returns there, and what goes on to the send.
unfoldable pub enqueue_check : ℕ → OutboxEvent → DurableOutbox → Option Bool × DurableOutbox
enqueue_check now e o =
    if o.is_closed
    then (some false, o)
    else (none, record o { sending = stamped now e ∷ o.sending })

-- The `select` of `Enqueue`, for a producer that leaves `others` sending.
unfoldable pub enqueue_send : OutboxEvent → List OutboxEvent → DurableOutbox → DurableOutbox
enqueue_send e others o =
    if o.is_queue_closed
    then record o { sending = others; is_panicked = true }
    else if ltb (length o.queue) o.max_queue_size
    then record o { sending = others; queue = o.queue ++ (e ∷ []); uncounted = o.uncounted + 1 }
    else record o { sending = others; dropped_count = o.dropped_count + 1 }

-- The counter of `Enqueue`, after the send.
unfoldable pub enqueue_count : DurableOutbox → DurableOutbox
enqueue_count o = record o { uncounted = o.uncounted - 1; queued_count = o.queued_count + 1 }

-- An idle worker takes the head of the queue.
unfoldable pub receive : OutboxEvent → List OutboxEvent → DurableOutbox → DurableOutbox
receive e rest o = record o { queue = rest; idle = o.idle - 1; in_flight = e ∷ o.in_flight }

unfoldable pub settled : Outcome → OutboxEvent → DurableOutbox → DurableOutbox
settled delivered e o = record o { delivered_count = o.delivered_count + 1 }
settled abandoned e o = record o { given_up = o.given_up + 1 }
settled exhausted e o = record o {
  failed_count = o.failed_count + 1;
  dead_letter_log =
      if ltb (length o.dead_letter_log) 1000
      then o.dead_letter_log ++ (with_defaults e ∷ [])
      else o.dead_letter_log;
}

-- A worker ends the delivery of `e`, while the others hold `others`.
unfoldable pub process : World → OutboxEvent → List OutboxEvent → DurableOutbox → DurableOutbox
unfolding settled
process w e others o =
    settled (process_with_retries w e).0 e (record o { in_flight = others; idle = o.idle + 1 })

unfoldable pub worker_return : DurableOutbox → DurableOutbox
worker_return o = record o { idle = o.idle - 1; returned = o.returned + 1 }

-- The head of `FlushAndClose`: whether it goes on.
unfoldable pub begin_close : DurableOutbox → Bool × DurableOutbox
begin_close o = if o.is_closed then (false, o) else (true, record o { is_closed = true })

unfoldable pub close_queue : DurableOutbox → DurableOutbox
close_queue o = record o { is_queue_closed = true }

-- The end of `FlushAndClose`, when all workers have returned or when the time is over: whether there
-- is no error.
unfoldable pub end_close : Bool → DurableOutbox → Bool × DurableOutbox
end_close is_timed_out o = (not is_timed_out, record o { is_cancelled = true })
