-- ===== src/Outbox/Delivery/Attempts.antt =====
-- What the attempts of one delivery come to.
use ropus.Common.{ℕ, zero, suc, ◌+◌, ◌≤◌, ◌<◌, ◌≡◌, ◌≢◌, ◌↔◌, true, false, arith}
use ropus.Common.Int.{or_default}
use ropus.Outbox.Delivery.{
  OutboxEvent, delivered, exhausted, abandoned, World, attempts_from, process_with_retries, IsQuiet,
}

module _ (w : World) where
  attempts_bound : (attempt left : ℕ) → (attempts_from w attempt left).1 ≤ left + 1
  unfolding attempts_from
  attempts_bound attempt zero = ground arith
  attempts_bound attempt (suc left) = ground (arith, attempts_bound (attempt + 1) left)

  attempts_before :
      (attempt left i : ℕ)
      → i + 1 < (attempts_from w attempt left).1
      → w.dispatches (attempt + i) ≡ false
  unfolding attempts_from
  attempts_before attempt zero i h = ground arith
  attempts_before attempt (suc left) zero h = ground arith
  attempts_before attempt (suc left) (suc i) h =
      ground (arith, attempts_before (attempt + 1) left i)

  attempts_none :
      (attempt left : ℕ)
      → (attempts_from w attempt left).1 ≡ 0
      → (attempts_from w attempt left).0 ≡ abandoned
  unfolding attempts_from
  attempts_none attempt zero h = ground arith
  attempts_none attempt (suc left) h = ground arith

  attempts_last :
      (attempt left i : ℕ)
      → i + 1 ≡ (attempts_from w attempt left).1
      → ((attempts_from w attempt left).0 ≡ delivered) ↔ (w.dispatches (attempt + i) ≡ true)
  unfolding attempts_from
  attempts_last attempt zero i h = ground arith
  attempts_last attempt (suc left) zero h = ground (arith, attempts_none (attempt + 1) left)
  attempts_last attempt (suc left) (suc i) h = ground (arith, attempts_last (attempt + 1) left i)

  attempts_exhausted :
      (attempt left : ℕ)
      → (attempts_from w attempt left).0 ≡ exhausted
      → (attempts_from w attempt left).1 ≡ left + 1
  unfolding attempts_from
  attempts_exhausted attempt zero h = ground arith
  attempts_exhausted attempt (suc left) h = ground (arith, attempts_exhausted (attempt + 1) left)

  attempts_quiet : IsQuiet w → (attempt left : ℕ) → (attempts_from w attempt left).0 ≢ abandoned
  unfolding attempts_from
  attempts_quiet q attempt zero h = ground (arith, q attempt)
  attempts_quiet q attempt (suc left) h =
      ground (arith, q attempt, attempts_quiet q (attempt + 1) left)

-- Delivery of one event, whatever the dispatcher and the context do: there are at most one more
-- attempts than retries (3 where none are set), every attempt before the last has failed, the
-- outcome is a delivery where the last has not, and a dead letter has used all attempts.
pub process_calls :
    (w : World) (e : OutboxEvent)
    → let (outcome, calls) = process_with_retries w e in
      (calls ≤ or_default 3 e.max_retries + 1)
      × ((i : ℕ) → i + 1 < calls → w.dispatches i ≡ false)
      × ((i : ℕ) → i + 1 ≡ calls → (outcome ≡ delivered) ↔ (w.dispatches i ≡ true))
      × (outcome ≡ exhausted → calls ≡ or_default 3 e.max_retries + 1)
unfolding process_with_retries
process_calls w e =
    let m = or_default 3 e.max_retries in
    (
      attempts_bound w 0 m,
      (λ i h. ground (arith, attempts_before w 0 m i)),
      (λ i h. ground (arith, attempts_last w 0 m i)),
      attempts_exhausted w 0 m,
    )

-- Unless the context is cancelled, no event is abandoned.
pub process_quiet :
    (w : World) (e : OutboxEvent) → IsQuiet w → (process_with_retries w e).0 ≢ abandoned
unfolding process_with_retries
process_quiet w e q = attempts_quiet w q 0 (or_default 3 e.max_retries)
