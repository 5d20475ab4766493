-- ===== src/Common/Dict.antt =====
-- Go maps with string keys, as association lists. The order of the entries is the order in which
-- one run of `range` visits them; `IsMap` says that no key is listed twice.
use Prim.Native.String.{String}
use text.Mathlib.Text.{◌==◌ as str_eq}
use text.Mathlib.TextEquality.{eq_iff}
use mathlib.Core.Path.{◌≡◌, refl}
use mathlib.Core.Bool.{Bool, ◌||◌}
use mathlib.Core.Option.{Option, none, some}
use mathlib.Core.List.{List, [], ◌∷◌}
use native.Mathlib.Omega.{arith}
use Prim.Native.Nat.{◌+◌}
use ropus.Common.Lists.{length}
use ropus.Common.Tests.{if◌then◌else◌, is_some, map_option}

abbrev pub Dict {ℓ} : Type ℓ → Type ℓ
Dict V = List (String × V)

module _ {ℓ} {V : Type ℓ} where
  -- `d[k]` with its second result
  abbrev pub lookup : String → Dict V → Option V
  lookup k [] = none
  lookup k ((j, v) ∷ d) = if str_eq j k then some v else lookup k d

  abbrev pub contains : String → Dict V → Bool
  contains k d = is_some (lookup k d)

  -- `d[k] = v`
  abbrev pub insert : String → V → Dict V → Dict V
  insert k v [] = (k, v) ∷ []
  insert k v ((j, w) ∷ d) = if str_eq j k then (j, v) ∷ d else (j, w) ∷ insert k v d

  -- `delete(d, k)`
  abbrev pub erase : String → Dict V → Dict V
  erase k [] = []
  erase k ((j, w) ∷ d) = if str_eq j k then d else (j, w) ∷ erase k d

  -- a write through the pointer `d[k]`, where it is not nil
  abbrev pub update : String → (V → V) → Dict V → Dict V
  update k f [] = []
  update k f ((j, w) ∷ d) = if str_eq j k then (j, f w) ∷ d else (j, w) ∷ update k f d

  -- a write through every pointer of the map
  abbrev pub map_entries : (String → V → V) → Dict V → Dict V
  map_entries f [] = []
  map_entries f ((j, w) ∷ d) = (j, f j w) ∷ map_entries f d

  abbrev pub IsMap : Dict V → Type ℓ
  IsMap [] = Unit
  IsMap ((k, v) ∷ d) = (lookup k d ≡ none) × IsMap d

  pub lookup-insert :
      (k j : String) (v : V) (d : Dict V)
      → lookup j (insert k v d) ≡ (if str_eq k j then some v else lookup j d)
  lookup-insert k j v [] = refl
  lookup-insert k j v ((i, w) ∷ d) =
      ground (arith, eq_iff k j, eq_iff i k, eq_iff i j, lookup-insert k j v d)

  pub lookup-update :
      (k j : String) (f : V → V) (d : Dict V)
      → lookup j (update k f d) ≡ (if str_eq k j then map_option f (lookup j d) else lookup j d)
  lookup-update k j f [] = ground arith
  lookup-update k j f ((i, w) ∷ d) =
      ground (arith, eq_iff k j, eq_iff i k, eq_iff i j, lookup-update k j f d)

  pub lookup-erase :
      (k j : String) (d : Dict V)
      → IsMap d
      → lookup j (erase k d) ≡ (if str_eq k j then none else lookup j d)
  lookup-erase k j [] h = ground arith
  lookup-erase k j ((i, w) ∷ d) h =
      ground (arith, eq_iff k j, eq_iff i k, eq_iff i j, lookup-erase k j d h.1, h.0)

  pub lookup-map_entries :
      (f : String → V → V) (j : String) (d : Dict V)
      → lookup j (map_entries f d) ≡ map_option (f j) (lookup j d)
  lookup-map_entries f j [] = refl
  lookup-map_entries f j ((i, w) ∷ d) = ground (arith, eq_iff i j, lookup-map_entries f j d)

  pub contains-update :
      (k j : String) (f : V → V) (d : Dict V) → contains j (update k f d) ≡ contains j d
  contains-update k j f d = ground (arith, lookup-update k j f d)

  pub contains-insert :
      (k j : String) (v : V) (d : Dict V) → contains j (insert k v d) ≡ (str_eq k j || contains j d)
  contains-insert k j v d = ground (arith, lookup-insert k j v d)

  pub contains-map_entries :
      (f : String → V → V) (j : String) (d : Dict V) → contains j (map_entries f d) ≡ contains j d
  contains-map_entries f j d = ground (arith, lookup-map_entries f j d)

  pub length-insert :
      (k : String) (v : V) (d : Dict V)
      → length (insert k v d) ≡ (if contains k d then length d else length d + 1)
  length-insert k v [] = ground arith
  length-insert k v ((i, w) ∷ d) = ground (arith, length-insert k v d)

  pub length-erase :
      (k : String) (d : Dict V)
      → length d ≡ (if contains k d then length (erase k d) + 1 else length (erase k d))
  length-erase k [] = refl
  length-erase k ((i, w) ∷ d) = ground (arith, length-erase k d)

  pub insert-IsMap : (k : String) (v : V) (d : Dict V) → IsMap d → IsMap (insert k v d)
  insert-IsMap k v [] h = (refl, tt)
  insert-IsMap k v ((i, w) ∷ d) h =
      ground (arith, eq_iff i k, eq_iff k i, insert-IsMap k v d h.1, lookup-insert k i v d)

  pub update-IsMap : (k : String) (f : V → V) (d : Dict V) → IsMap d → IsMap (update k f d)
  update-IsMap k f [] h = tt
  update-IsMap k f ((i, w) ∷ d) h =
      ground (arith, eq_iff i k, eq_iff k i, update-IsMap k f d h.1, lookup-update k i f d)

  pub erase-IsMap : (k : String) (d : Dict V) → IsMap d → IsMap (erase k d)
  erase-IsMap k [] h = tt
  erase-IsMap k ((i, w) ∷ d) h =
      ground (arith, eq_iff i k, eq_iff k i, erase-IsMap k d h.1, lookup-erase k i d h.1)

  pub map_entries-IsMap : (f : String → V → V) (d : Dict V) → IsMap d → IsMap (map_entries f d)
  map_entries-IsMap f [] h = tt
  map_entries-IsMap f ((i, w) ∷ d) h =
      ground (arith, map_entries-IsMap f d h.1, lookup-map_entries f i d)

module _ {ℓ} {V : Type ℓ} where
  -- Where no entry changes, the map does not.
  pub map_entries_id :
      (f : String → V → V) (d : Dict V)
      → IsMap d
      → ((k : String) (v : V) → lookup k d ≡ some v → f k v ≡ v)
      → map_entries f d ≡ d
  map_entries_id f [] h same = refl
  map_entries_id f ((k, v) ∷ d) h same = cc (
    same k v (ground (arith, eq_iff k k)),
    map_entries_id f d h.1 λ j w e. same j w (ground (arith, eq_iff k j, h.0)),
  )

-- A function of the values that a write does not change.
module _ {ℓ κ} {V : Type ℓ} {A : Type κ} (g : V → A) where
  pub map_option-update :
      (k j : String) (f : V → V) (d : Dict V)
      → ((v : V) → g (f v) ≡ g v)
      → map_option g (lookup j (update k f d)) ≡ map_option g (lookup j d)
  map_option-update k j f [] same = refl
  map_option-update k j f ((i, w) ∷ d) same = ground (arith, same w, map_option-update k j f d same)

  pub map_option-map_entries :
      (j : String) (f : String → V → V) (d : Dict V)
      → ((k : String) (v : V) → g (f k v) ≡ g v)
      → map_option g (lookup j (map_entries f d)) ≡ map_option g (lookup j d)
  map_option-map_entries j f [] same = refl
  map_option-map_entries j f ((i, w) ∷ d) same =
      ground (arith, same i w, map_option-map_entries j f d same)

-- `for k, v := range d`, where the body may write through the pointer `v` and to an accumulator.
module _ {ℓ κ} {V : Type ℓ} {T : Type κ} where
  unfoldable pub range_update : (String → V → T → V × T) → Dict V → T → Dict V × T
  range_update visit [] t = ([], t)
  range_update visit ((k, v) ∷ d) t =
      let (v', t') = visit k v t in let (d', t'') = range_update visit d t' in ((k, v') ∷ d', t'')

  -- Where the value written does not depend on the accumulator, the loop is a map.
  pub range_update-map :
      (visit : String → V → T → V × T) (f : String → V → V)
      → ((k : String) (v : V) (t : T) → (visit k v t).0 ≡ f k v)
      → (d : Dict V) (t : T) → (range_update visit d t).0 ≡ map_entries f d
  unfolding range_update
  range_update-map visit f same [] t = refl
  range_update-map visit f same ((k, v) ∷ d) t =
      cc (same k v t, range_update-map visit f same d (visit k v t).1)
