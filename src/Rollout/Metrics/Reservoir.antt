-- ===== src/Rollout/Metrics/Reservoir.antt =====
-- The latency reservoir as a sliding window: it holds the last `max_size` samples.
use ropus.Common.{
  ℕ, zero, suc, ◌+◌, ◌-◌, ◌%◌, ◌≤◌, ◌<◌, ◌≡◌, refl, ◌∙◌, false, List, [], ◌∷◌, Option, some, arith,
  ltb, ◌==◌, if◌then◌else◌, length, get_elem?, length-set, length-replicate, get_elem?-set, min,
}
use ropus.Common.Int.{ℤ, pos, negsuc, or_default}
use ropus.Rollout.Metrics.{LatencyReservoir, new_latency_reservoir, add}

pub record IsValid {F : Type 0} (r : LatencyReservoir F) : Type 0 where
  pub has_room : 0 < r.max_size
  pub idx_in_range : r.idx < r.max_size
  pub count_in_range : r.count ≤ r.max_size
  pub allocated : length r.samples ≡ r.max_size

next_idx : (i n : ℕ) → i < n → (i + 1) % n ≡ (if i + 1 == n then 0 else i + 1)
next_idx i n h = grind arith

or_default_pos : (n : ℤ) → 0 < or_default 2000 n
or_default_pos (pos n) = ground arith
or_default_pos (negsuc n) = omega arith

module _ {F : Type 0} where
  pub add-IsValid : (v : F) (r : LatencyReservoir F) → IsValid r → IsValid (add v r)
  unfolding add
  add-IsValid v r h = record {
    has_room = h.has_room;
    idx_in_range = grind arith;
    count_in_range = ground arith;
    allocated = omega (arith, length-set r.samples r.idx v);
  }

  -- The slot of the j-th sample, counted back from the newest.
  abbrev pub slot : LatencyReservoir F → ℕ → ℕ
  slot r j = if ltb j r.idx then r.idx - 1 - j else r.idx + r.max_size - 1 - j

  abbrev pub recent : LatencyReservoir F → ℕ → Option F
  recent r j = get_elem? r.samples (slot r j)

  slot-add-zero : (v : F) (r : LatencyReservoir F) → IsValid r → slot (add v r) 0 ≡ r.idx
  unfolding add
  slot-add-zero v r h = ground (arith, next_idx r.idx r.max_size h.idx_in_range)

  slot-add-suc :
      (v : F) (r : LatencyReservoir F) (j : ℕ)
      → IsValid r
      → suc j < r.max_size
      → (slot (add v r) (suc j) ≡ slot r j) × ((r.idx == slot r j) ≡ false)
  unfolding add
  slot-add-suc v r j h q = ground (arith, next_idx r.idx r.max_size h.idx_in_range)

  recent-add-zero : (v : F) (r : LatencyReservoir F) → IsValid r → recent (add v r) 0 ≡ some v
  recent-add-zero v r h =
      rw (slot-add-zero v r h) (unfold add in ground (arith, get_elem?-set r.samples r.idx r.idx v))

  recent-add-suc :
      (v : F) (r : LatencyReservoir F) (j : ℕ)
      → IsValid r
      → suc j < r.max_size
      → recent (add v r) (suc j) ≡ recent r j
  recent-add-suc v r j h q =
      let (same, other) = slot-add-suc v r j h q in
      rw same (unfold add in ground (arith, get_elem?-set r.samples r.idx (slot r j) v))

  -- A reservoir of the given size after samples, the newest first.
  pub filled : F → ℤ → List F → LatencyReservoir F
  filled z n [] = new_latency_reservoir z n
  filled z n (v ∷ vs) = add v (filled z n vs)

  filled-IsValid : (z : F) (n : ℤ) (vs : List F) → IsValid (filled z n vs)
  unfolding filled new_latency_reservoir
  filled-IsValid z n [] = record {
    has_room = or_default_pos n;
    idx_in_range = or_default_pos n;
    count_in_range = omega arith;
    allocated = length-replicate (or_default 2000 n) z;
  }
  filled-IsValid z n (v ∷ vs) = add-IsValid v (filled z n vs) (filled-IsValid z n vs)

  filled_size : (z : F) (n : ℤ) (vs : List F) → (filled z n vs).max_size ≡ or_default 2000 n
  unfolding filled new_latency_reservoir add
  filled_size z n [] = refl
  filled_size z n (v ∷ vs) = filled_size z n vs

  count-filled :
      (z : F) (n : ℤ) (vs : List F)
      → (filled z n vs).count ≡ min (length vs) (filled z n vs).max_size
  unfolding filled new_latency_reservoir add
  count-filled z n [] = omega arith
  count-filled z n (v ∷ vs) = ground (arith, count-filled z n vs)

  recent-filled :
      (z : F) (n : ℤ) (vs : List F) (j : ℕ)
      → j < length vs
      → j < (filled z n vs).max_size
      → recent (filled z n vs) j ≡ get_elem? vs j
  unfolding filled
  recent-filled z n [] j h q = elim h [ ]
  recent-filled z n (v ∷ vs) zero h q = recent-add-zero v (filled z n vs) (filled-IsValid z n vs)
  recent-filled z n (v ∷ vs) (suc j) h q =
      let smaller : suc j < (filled z n vs).max_size = unfold add in q in
      recent-add-suc v (filled z n vs) j (filled-IsValid z n vs) smaller
      ∙ recent-filled z n vs j (omega arith) (omega arith)

  -- Whatever has been added, the reservoir holds the newest samples and no others: as many as
  -- there are, up to its size, each at its distance from the newest.
  pub filled_window :
      (z : F) (n : ℤ) (vs : List F)
      → ((filled z n vs).count ≡ min (length vs) (or_default 2000 n))
        × ((j : ℕ) → j < (filled z n vs).count → recent (filled z n vs) j ≡ get_elem? vs j)
  filled_window z n vs = (
    rw (← filled_size z n vs) (count-filled z n vs),
    λ j h.
        recent-filled z n vs j (omega (arith, count-filled z n vs))
          (omega (arith, count-filled z n vs)),
  )
