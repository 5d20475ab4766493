-- ===== src/Idempotency/Current.antt =====
-- The entries of the store that are current, through a request.
use ropus.Common.{
  ℕ, ◌+◌, ◌≤◌, ◌<◌, ◌≡◌, ◌≢◌, inl, inr, refl, Bool-cases, String, str_eq, eq_iff, true, false,
  Option, none, some, List, arith, length, ltb, leb,
}
use ropus.Common.Dict.{
  lookup, erase, IsMap, lookup-insert, lookup-erase, insert-IsMap, erase-IsMap, length-insert,
  length-erase,
}
use ropus.Idempotency.Store.{
  IdempotencyStore, Request, register, admit_found, admit, enter, enter_by, store_key_of,
}

-- Every record that has been made and has not expired at the clock is the one under its key.
pub record IsCurrent (s : IdempotencyStore) (clock : ℕ) : Type 0 where
  pub is_map : IsMap s.records
  pub size : length s.records ≤ s.next
  pub current :
      (ref : ℕ)
      → ref < s.next
      → clock ≤ (s.heap ref).expires_at
      → lookup (s.heap ref).store_key s.records ≡ some ref

module _ (s : IdempotencyStore) (clock : ℕ) (h : IsCurrent s clock) where
  pub later-IsCurrent : (now : ℕ) → clock ≤ now → IsCurrent s now
  later-IsCurrent now q = record {
    is_map = h.is_map;
    size = h.size;
    current = λ ref b e. h.current ref b (omega arith);
  }

  -- A registration under a key whose records have all expired.
  register-IsCurrent :
      (now : ℕ) (key hash : String)
      → ((ref : ℕ) → ref < s.next → clock ≤ (s.heap ref).expires_at → (s.heap ref).store_key ≢ key)
      → IsCurrent (register now key hash s).1 clock
  unfolding register
  register-IsCurrent now key hash free = record {
    is_map = insert-IsMap key s.next s.records h.is_map;
    size = ground (arith, h.size, length-insert key s.next s.records);
    current = λ ref b e. ground (
      arith,
      eq_iff key key,
      eq_iff key (s.heap ref).store_key,
      lookup-insert key key s.next s.records,
      lookup-insert key (s.heap ref).store_key s.next s.records,
      h.current ref,
      free ref,
    );
  }

  erase-IsCurrent :
      (key : String)
      → ((ref : ℕ) → ref < s.next → clock ≤ (s.heap ref).expires_at → (s.heap ref).store_key ≢ key)
      → IsCurrent (record s { records = erase key s.records }) clock
  erase-IsCurrent key free = record {
    is_map = erase-IsMap key s.records h.is_map;
    size = ground (arith, h.size, length-erase key s.records);
    current = λ ref b e. ground (
      arith,
      eq_iff key (s.heap ref).store_key,
      lookup-erase key (s.heap ref).store_key s.records h.is_map,
      h.current ref b e,
      free ref b e,
    );
  }

  -- Of an entry that is missing or has expired, all records under its key have expired.
  missing_free :
      (key : String)
      → lookup key s.records ≡ none
      → (ref : ℕ) → ref < s.next
      → clock ≤ (s.heap ref).expires_at
      → (s.heap ref).store_key ≢ key
  missing_free key m ref b e same = ground (arith, h.current ref b e)

  expired_free :
      (now : ℕ) (key : String) (r : ℕ)
      → now ≤ clock
      → lookup key s.records ≡ some r
      → ltb (s.heap r).expires_at now ≡ true
      → (ref : ℕ) → ref < s.next
      → clock ≤ (s.heap ref).expires_at
      → (s.heap ref).store_key ≢ key
  expired_free now key r q f x ref b e same = ground (arith, h.current ref b e)

  conflict-IsCurrent : (n : ℕ) → IsCurrent (record s { conflicts = n }) clock
  conflict-IsCurrent n = record { is_map = h.is_map; size = h.size; current = h.current }

  blocked-IsCurrent : (o : Option ℕ) → IsCurrent (record s { blocked_on = o }) clock
  blocked-IsCurrent o = record { is_map = h.is_map; size = h.size; current = h.current }

admit_found-IsCurrent :
    (now : ℕ) (key hash : String) (s : IdempotencyStore) (clock : ℕ) (o : Option ℕ)
    → now ≤ clock
    → lookup key s.records ≡ o
    → IsCurrent s clock
    → IsCurrent (admit_found now key hash o s).1 clock
unfolding admit_found
admit_found-IsCurrent now key hash s clock none q e h =
    register-IsCurrent s clock h now key hash (missing_free s clock h key e)
admit_found-IsCurrent now key hash s clock (some ref) q e h =
    elim (Bool-cases (ltb (s.heap ref).expires_at now)) [
      | inl old ↦
          let free = expired_free s clock h now key ref q e old in
          rw old (
            register-IsCurrent (record s { records = erase key s.records }) clock
              (erase-IsCurrent s clock h key free) now key hash free)
      | inr live ↦ elim (Bool-cases (str_eq (s.heap ref).request_hash hash)) [
        | inl same ↦ rw (live, same) (blocked-IsCurrent s clock h (some ref))
        | inr other ↦ rw (live, other) (conflict-IsCurrent s clock h (s.conflicts + 1))
      ]
    ]

pub not_full :
    (s : IdempotencyStore) (clock : ℕ)
    → IsCurrent s clock
    → s.next < s.max_size
    → leb s.max_size (length s.records) ≡ false
not_full s clock h q = ground (arith, h.size)

pub admit-IsCurrent :
    (now : ℕ) (key hash : String) (s : IdempotencyStore) (clock : ℕ)
    → now ≤ clock
    → IsCurrent s clock
    → s.next < s.max_size
    → IsCurrent (admit now key hash s).1 clock
unfolding admit
admit-IsCurrent now key hash s clock b h q =
    rw (not_full s clock h q)
      (admit_found-IsCurrent now key hash s clock (lookup key s.records) b refl h)

pub enter-IsCurrent :
    (sha256_hex : String → List ℕ → String) (now : ℕ) (r : Request) (s : IdempotencyStore)
    (clock : ℕ)
    → now ≤ clock
    → IsCurrent s clock
    → s.next < s.max_size
    → IsCurrent (enter sha256_hex now r s).1 clock
enter-IsCurrent sha256_hex now r s clock b h q =
    enter_by (λ e. IsCurrent e.1 clock) sha256_hex now r s h h
      (λ hash. admit-IsCurrent now (store_key_of r) hash s clock b h q)
