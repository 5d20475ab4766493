-- ===== src/Outbox/Kept.antt =====
-- The accounts of the outbox, through each of its steps.
use ropus.Common.{
  ℕ, ◌+◌, ◌≤◌, ◌<◌, ◌≡◌, ◌≢◌, ◌⊎◌, refl, true, false, List, [], ◌∷◌, ◌++◌, arith, length,
  length-append, min,
}
use ropus.Common.Int.{ℤ, or_default}
use ropus.Outbox.Delivery.{
  OutboxEvent, Outcome, delivered, exhausted, abandoned, World, IsQuiet, with_defaults,
  process_with_retries,
}
use ropus.Outbox.Delivery.Attempts.{process_quiet}
use ropus.Outbox.Queue.{
  DurableOutbox, new_durable_outbox, enqueue_check, enqueue_send, receive, process, settled,
  worker_return, begin_close, close_queue,
}

-- Every accepted event is queued, held by a worker, delivered, failed or, after cancellation only,
-- given up; the bounds of the queue, of the dead letters and of the workers; the order of closing.
pub record IsAccounted (o : DurableOutbox) : Type 0 where
  pub accepted :
      o.queued_count + o.uncounted
      ≡ length o.queue + length o.in_flight + o.delivered_count + o.failed_count + o.given_up
  pub kept : o.is_cancelled ≡ false → o.given_up ≡ 0
  pub queue_bound : length o.queue ≤ o.max_queue_size
  pub dead_letters : length o.dead_letter_log ≡ min o.failed_count 1000
  pub all_workers : o.idle + length o.in_flight + o.returned ≡ o.workers
  pub some_worker : 0 < o.workers
  pub closing : o.is_queue_closed ≡ true → o.is_closed ≡ true
  pub cancelling : o.is_cancelled ≡ true → o.is_queue_closed ≡ true
  pub panicking : o.is_panicked ≡ true → o.is_queue_closed ≡ true
  pub drained :
      o.is_cancelled ≡ false → 0 < o.returned → (o.is_queue_closed ≡ true) × (o.queue ≡ [])

or_default_positive : (d : ℕ) (z : ℤ) → 0 < d → 0 < or_default d z
or_default_positive d (ℤ.pos n) h = ground arith
or_default_positive d (ℤ.negsuc n) h = h

pub new-IsAccounted :
    (workers max_queue_size : ℤ) → IsAccounted (new_durable_outbox workers max_queue_size)
unfolding new_durable_outbox
new-IsAccounted workers max_queue_size = record {
  accepted = omega arith;
  kept = λ h. refl;
  queue_bound = omega arith;
  dead_letters = omega arith;
  all_workers = omega arith;
  some_worker = or_default_positive 4 workers (omega arith);
  closing = λ h. ground arith;
  cancelling = λ h. ground arith;
  panicking = λ h. ground arith;
  drained = λ _ h. ground arith;
}

module _ (o : DurableOutbox) (h : IsAccounted o) where
  pub send-IsAccounted :
      (e : OutboxEvent) (others : List OutboxEvent) → IsAccounted (enqueue_send e others o)
  unfolding enqueue_send
  send-IsAccounted e others = record {
    accepted = ground (arith, h.accepted, length-append o.queue (e ∷ []));
    kept = λ c. ground (arith, h.kept);
    queue_bound = ground (arith, h.queue_bound, length-append o.queue (e ∷ []));
    dead_letters = ground (arith, h.dead_letters);
    all_workers = ground (arith, h.all_workers);
    some_worker = ground (arith, h.some_worker);
    closing = λ c. ground (arith, h.closing);
    cancelling = λ c. ground (arith, h.cancelling);
    panicking = λ c. ground (arith, h.panicking);
    drained = λ c r. ground (arith, h.drained);
  }

  pub receive-IsAccounted :
      (e : OutboxEvent) (rest : List OutboxEvent)
      → o.queue ≡ e ∷ rest
      → 0 < o.idle
      → IsAccounted (receive e rest o)
  unfolding receive
  receive-IsAccounted e rest q i = record {
    accepted = ground (arith, h.accepted);
    kept = h.kept;
    queue_bound = ground (arith, h.queue_bound);
    dead_letters = h.dead_letters;
    all_workers = ground (arith, h.all_workers);
    some_worker = h.some_worker;
    closing = h.closing;
    cancelling = h.cancelling;
    panicking = h.panicking;
    drained = λ c r. ground (arith, h.drained c r);
  }

  settled-IsAccounted :
      (out : Outcome) (e : OutboxEvent) (others : List OutboxEvent)
      → length o.in_flight ≡ length others + 1
      → (o.is_cancelled ≡ false → out ≢ abandoned)
      → IsAccounted (settled out e (record o { in_flight = others; idle = o.idle + 1 }))
  unfolding settled
  settled-IsAccounted delivered e others l c = record {
    accepted = ground (arith, h.accepted);
    kept = h.kept;
    queue_bound = h.queue_bound;
    dead_letters = h.dead_letters;
    all_workers = ground (arith, h.all_workers);
    some_worker = h.some_worker;
    closing = h.closing;
    cancelling = h.cancelling;
    panicking = h.panicking;
    drained = h.drained;
  }
  settled-IsAccounted abandoned e others l c = record {
    accepted = ground (arith, h.accepted);
    kept = λ q. elim (c q refl) [ ];
    queue_bound = h.queue_bound;
    dead_letters = h.dead_letters;
    all_workers = ground (arith, h.all_workers);
    some_worker = h.some_worker;
    closing = h.closing;
    cancelling = h.cancelling;
    panicking = h.panicking;
    drained = h.drained;
  }
  settled-IsAccounted exhausted e others l c = record {
    accepted = ground (arith, h.accepted);
    kept = h.kept;
    queue_bound = h.queue_bound;
    dead_letters =
        ground (arith, h.dead_letters, length-append o.dead_letter_log (with_defaults e ∷ []));
    all_workers = ground (arith, h.all_workers);
    some_worker = h.some_worker;
    closing = h.closing;
    cancelling = h.cancelling;
    panicking = h.panicking;
    drained = h.drained;
  }

  pub process-IsAccounted :
      (w : World) (before : List OutboxEvent) (e : OutboxEvent) (after : List OutboxEvent)
      → o.in_flight ≡ before ++ (e ∷ after)
      → (o.is_cancelled ≡ false → IsQuiet w)
      → IsAccounted (process w e (before ++ after) o)
  unfolding process
  process-IsAccounted w before e after b c =
      settled-IsAccounted (process_with_retries w e).0 e (before ++ after)
        (rw b (omega (arith, length-append before after, length-append before (e ∷ after))))
        (λ q. process_quiet w e (c q))

  pub return-IsAccounted :
      0 < o.idle
      → (o.is_cancelled ≡ true) ⊎ ((o.is_queue_closed ≡ true) × (o.queue ≡ []))
      → IsAccounted (worker_return o)
  unfolding worker_return
  return-IsAccounted i r = record {
    accepted = h.accepted;
    kept = h.kept;
    queue_bound = h.queue_bound;
    dead_letters = h.dead_letters;
    all_workers = ground (arith, h.all_workers);
    some_worker = h.some_worker;
    closing = h.closing;
    cancelling = h.cancelling;
    panicking = h.panicking;
    drained = λ c r'. ground arith;
  }

  pub close-IsAccounted : o.is_closed ≡ true → IsAccounted (close_queue o)
  unfolding close_queue
  close-IsAccounted c = record {
    accepted = h.accepted;
    kept = h.kept;
    queue_bound = h.queue_bound;
    dead_letters = h.dead_letters;
    all_workers = h.all_workers;
    some_worker = h.some_worker;
    closing = λ _. c;
    cancelling = λ _. refl;
    panicking = λ _. refl;
    drained = λ c r. (refl, (h.drained c r).1);
  }

  pub check-IsAccounted : (now : ℕ) (e : OutboxEvent) → IsAccounted (enqueue_check now e o).1
  unfolding enqueue_check
  check-IsAccounted now e = record {
    accepted = ground (arith, h.accepted);
    kept = λ c. ground (arith, h.kept);
    queue_bound = ground (arith, h.queue_bound);
    dead_letters = ground (arith, h.dead_letters);
    all_workers = ground (arith, h.all_workers);
    some_worker = ground (arith, h.some_worker);
    closing = λ c. ground (arith, h.closing);
    cancelling = λ c. ground (arith, h.cancelling);
    panicking = λ c. ground (arith, h.panicking);
    drained = λ c r. ground (arith, h.drained);
  }

  pub begin-IsAccounted : IsAccounted (begin_close o).1
  unfolding begin_close
  begin-IsAccounted = record {
    accepted = ground (arith, h.accepted);
    kept = λ c. ground (arith, h.kept);
    queue_bound = ground (arith, h.queue_bound);
    dead_letters = ground (arith, h.dead_letters);
    all_workers = ground (arith, h.all_workers);
    some_worker = ground (arith, h.some_worker);
    closing = λ c. ground (arith, h.closing);
    cancelling = λ c. ground (arith, h.cancelling);
    panicking = λ c. ground (arith, h.panicking);
    drained = λ c r. ground (arith, h.drained);
  }
