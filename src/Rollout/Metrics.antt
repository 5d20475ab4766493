-- ===== src/Rollout/Metrics.antt =====
-- The live metrics of canary_router.go: the latency reservoir and the counters. The counters are
-- atomic int64 values; their wrap-around at 2^63 requests is left out.
pub mod Reservoir
use ropus.Common.{
  ℕ, ◌+◌, ◌-◌, ◌*◌, ◌%◌, Bool, true, false, List, [], ◌∷◌, Option, none, some, ltb, leb, ◌==◌,
  if◌then◌else◌, length, get_elem?, set, take, replicate,
}
use ropus.Common.Int.{ℤ, pos, ◌+ℤ◌, or_default}
use ropus.Rollout.Float.{Floats}
use ropus.Rollout.Breaker.{Snapshot}

pub record LatencyReservoir (F : Type 0) : Type 0 where
  pub samples : List F
  pub max_size : ℕ
  pub idx : ℕ
  pub count : ℕ

pub record CanaryMetrics (F : Type 0) : Type 0 where
  pub legacy_requests_total : ℕ
  pub candidate_requests_total : ℕ
  pub candidate_success_total : ℕ
  pub candidate_error_total : ℕ
  pub candidate_fallback_total : ℕ
  pub candidate_decision_allow_total : ℕ
  pub candidate_decision_review_total : ℕ
  pub candidate_decision_decline_total : ℕ
  pub decision_changed_total : ℕ
  pub total_candidate_latency_us : ℤ
  pub latency_reservoir : LatencyReservoir F

module _ {F : Type 0} where
  -- The slice that `make` returns holds zeros.
  unfoldable pub new_latency_reservoir : F → ℤ → LatencyReservoir F
  new_latency_reservoir zero_value n =
      let size = or_default 2000 n in
      record { samples = replicate size zero_value; max_size = size; idx = 0; count = 0 }

  unfoldable pub add : F → LatencyReservoir F → LatencyReservoir F
  add val r = record r {
    samples = set r.samples r.idx val;
    idx = (r.idx + 1) % r.max_size;
    count = if ltb r.count r.max_size then r.count + 1 else r.count;
  }

module _ (fl : Floats) where
  open fl use {F, literal, of_int, mul, div, round, ceil, sort}

  abbrev zero_value : F
  zero_value = literal 0 1

  -- The index, clamped to the last sample; `int(math.Ceil(x)) - 1` is raised to 0 where it is negative.
  percentile_index : F → ℕ → ℕ
  percentile_index pct n = let i = ceil (mul pct (of_int n)) - 1 in if leb n i then n - 1 else i

  abbrev or_zero : Option F → F
  or_zero none = zero_value
  or_zero (some x) = x

  -- A read of `copied[idx]`, which `percentile_index` keeps in range.
  percentile_of : F → List F → F
  unfolding percentile_index
  percentile_of pct copied =
      if length copied == 1
      then or_zero (get_elem? copied 0)
      else or_zero (get_elem? copied (percentile_index pct (length copied)))

  -- One of the three results of `Percentiles`.
  unfoldable pub percentile : F → LatencyReservoir F → F
  unfolding percentile_of
  percentile pct r =
      if r.count == 0 then zero_value else percentile_of pct (sort (take r.count r.samples))

  abbrev ratio : ℕ → ℕ → F
  ratio a n = if ltb 0 n then div (of_int a) (of_int n) else zero_value

  -- `math.Round(x*10000) / 10000` and `math.Round(x*100) / 100`
  abbrev rounded : ℕ → F → F
  rounded k x = div (round (mul x (of_int k))) (of_int k)

  -- The entries of `Snapshot` that the breaker and the safety gates read.
  unfoldable pub snapshot : CanaryMetrics F → Snapshot F
  unfolding percentile
  snapshot m = record {
    candidate_requests_total = m.candidate_requests_total;
    candidate_error_rate = rounded 10000 (ratio m.candidate_error_total m.candidate_requests_total);
    candidate_fallback_rate =
        rounded 10000 (ratio m.candidate_fallback_total m.candidate_requests_total);
    candidate_p95_latency_ms = rounded 100 (percentile (literal 95 100) m.latency_reservoir);
    candidate_p99_latency_ms = rounded 100 (percentile (literal 99 100) m.latency_reservoir);
  }
