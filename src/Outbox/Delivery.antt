-- ===== src/Outbox/Delivery.antt =====
-- `OutboxEvent` and `processWithRetries` of outbox.go. The dispatcher and the context are oracles
-- over the number of the attempt. The length of the waits is left out.
use ropus.Common.{
  zero, suc, ℕ, ◌+◌, ◌≤◌, ◌<◌, ◌≡◌, ◌≢◌, refl, inl, inr, Bool-cases, String, Bool, true, false,
  Option, none, some, List, arith, if◌then◌else◌, ltb,
}
pub mod Attempts
use ropus.Common.Int.{ℤ, pos, or_default}

-- A zero timestamp is `none`; times and durations count nanoseconds.
pub record OutboxEvent : Type 0 where
  pub event_id : String
  pub event_type : String
  pub timestamp : Option ℕ
  pub correlation_id : String
  pub payload : List ℕ
  pub metadata : List (String × String)
  pub retry_count : ℤ
  pub max_retries : ℤ
  pub initial_backoff : ℤ

pub data Outcome : Type 0 where
  delivered exhausted abandoned : Outcome

-- What the worker meets: whether the context is cancelled at the head of an attempt, whether the
-- dispatcher takes the event then, and whether the context is cancelled in the wait after it.
pub record World : Type 0 where
  pub is_cancelled : ℕ → Bool
  pub dispatches : ℕ → Bool
  pub is_cut_short : ℕ → Bool

-- The loop from `attempt` on, with `left` attempts after this one, and the calls of the dispatcher.
unfoldable pub attempts_from : World → ℕ → ℕ → Outcome × ℕ
attempts_from w attempt zero =
    if w.is_cancelled attempt
    then (abandoned, 0)
    else if w.dispatches attempt
    then (delivered, 1)
    else (exhausted, 1)
attempts_from w attempt (suc left) =
    let (outcome, calls) = attempts_from w (attempt + 1) left in
    if w.is_cancelled attempt
    then (abandoned, 0)
    else if w.dispatches attempt
    then (delivered, 1)
    else if w.is_cut_short attempt
    then (abandoned, 1)
    else (outcome, calls + 1)

-- The event with its defaults, which is what a dead letter holds.
unfoldable pub with_defaults : OutboxEvent → OutboxEvent
with_defaults e = record e {
  max_retries = pos (or_default 3 e.max_retries);
  initial_backoff = pos (or_default 20000000 e.initial_backoff);
}

unfoldable pub process_with_retries : World → OutboxEvent → Outcome × ℕ
process_with_retries w e = attempts_from w 0 (or_default 3 e.max_retries)

abbrev pub IsQuiet : World → Type 0
IsQuiet w = (a : ℕ) → (w.is_cancelled a ≡ false) × (w.is_cut_short a ≡ false)
