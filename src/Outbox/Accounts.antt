-- ===== src/Outbox/Accounts.antt =====
-- What every reachable state of the outbox keeps.
use ropus.Common.{◌++◌, arith}
use ropus.Common.Int.{ℤ}
use ropus.Outbox.Queue.{DurableOutbox, new_durable_outbox, enqueue_count, end_close}
use ropus.Outbox.Steps.{
  Step, checks, sends, counts, receives, processes, returns, begins_close, closes_queue, ends_close,
  Steps, done, then_step, Reachable,
}
use ropus.Outbox.Kept.{
  IsAccounted, new-IsAccounted, send-IsAccounted, receive-IsAccounted, process-IsAccounted,
  return-IsAccounted, close-IsAccounted, check-IsAccounted, begin-IsAccounted,
}

module _ (o : DurableOutbox) (h : IsAccounted o) where
  next-IsAccounted : {p : DurableOutbox} → Step o p → IsAccounted p
  unfolding enqueue_count end_close
  next-IsAccounted (checks now e) = check-IsAccounted o h now e
  next-IsAccounted (sends before e after s) = send-IsAccounted o h e (before ++ after)
  next-IsAccounted (counts u) = record {
    accepted = ground (arith, h.accepted);
    kept = h.kept;
    queue_bound = h.queue_bound;
    dead_letters = h.dead_letters;
    all_workers = h.all_workers;
    some_worker = h.some_worker;
    closing = h.closing;
    cancelling = h.cancelling;
    panicking = h.panicking;
    drained = h.drained;
  }
  next-IsAccounted (receives e rest q i) = receive-IsAccounted o h e rest q i
  next-IsAccounted (processes w before e after b c) = process-IsAccounted o h w before e after b c
  next-IsAccounted (returns i r) = return-IsAccounted o h i r
  next-IsAccounted begins_close = begin-IsAccounted o h
  next-IsAccounted (closes_queue c q) = close-IsAccounted o h c
  next-IsAccounted (ends_close t q r) = record {
    accepted = h.accepted;
    kept = λ c. ground arith;
    queue_bound = h.queue_bound;
    dead_letters = h.dead_letters;
    all_workers = h.all_workers;
    some_worker = h.some_worker;
    closing = h.closing;
    cancelling = λ _. q;
    panicking = h.panicking;
    drained = λ c. ground arith;
  }

later-IsAccounted :
    (o : DurableOutbox) {p : DurableOutbox} → IsAccounted o → Steps o p → IsAccounted p
later-IsAccounted o h done = h
later-IsAccounted o h (then_step {p} before q s) =
    next-IsAccounted p (later-IsAccounted o h before) s

-- In every state that a new outbox reaches, by any interleaving: the accepted events are those in the
-- queue, held by a worker, delivered, failed, or given up, and none is given up before cancellation;
-- the queue is within its capacity; the dead letters are the failures up to 1000; the workers are
-- idle, busy or have returned; the channel is closed only once closing has begun; and cancellation
-- and a panic of a sender come only once the channel is closed.
pub reached-IsAccounted :
    (workers max_queue_size : ℤ) (o : DurableOutbox)
    → Reachable workers max_queue_size o
    → IsAccounted o
reached-IsAccounted workers max_queue_size o r =
    later-IsAccounted (new_durable_outbox workers max_queue_size)
      (new-IsAccounted workers max_queue_size) r
