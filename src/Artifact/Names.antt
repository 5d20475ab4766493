-- ===== src/Artifact/Names.antt =====
-- Which file a storage URI names: `resolveFilePath` of artifact_store.go.
use Prim.Native.String.{len, slice}
use Prim.Native.String.{[], ◌∷◌}
use Prim.Native.String.len
use text.Mathlib.TextEquality.{starts_with_iff}
use text.Mathlib.TextPositions.{slice-append_right, starts_with-append, len-append, len_utf8-pos}
use ropus.Common.{
  ◌+◌, ◌<◌, ◌≡◌, ◌≢◌, ◌∙◌, sym, refl, ap, subst, ◌⊎◌, inl, inr, String, ◌<>◌, starts_with, Bool,
  true, false, Bool-cases, arith, ltb, ◌&&◌,
}
use ropus.Artifact.{resolve_file_path}

abbrev scheme : String
scheme = "file://"

abbrev IsSchemed : String → String → Type 0
IsSchemed uri path = (path ≢ "") × (uri ≡ scheme <> path)

-- A URI `file://path` names the path, where that is not empty; every other URI is itself the path.
abbrev pub Names : String → String → Type 0
Names uri path = IsSchemed uri path ⊎ (((rest : String) → ¬ IsSchemed uri rest) × (path ≡ uri))

len_positive : (s : String) → s ≢ "" → 0 < len s
len_positive [] n = absurd (n refl)
len_positive (c ∷ s) n = let (k, e) = len_utf8-pos c in omega (arith, e, len.cons c s)

resolve_scheme : (uri rest : String) → IsSchemed uri rest → resolve_file_path uri ≡ rest
unfolding resolve_file_path
resolve_scheme uri rest (n, e) =
    let long : ltb 7 (len (scheme <> rest)) ≡ true =
      ground (arith, len-append scheme rest, len_positive rest n) in
    let starts : starts_with (scheme <> rest) scheme ≡ true = starts_with-append scheme rest in
    rw (e, long, starts)
      (subst (λ k. slice (scheme <> rest) 7 k ≡ rest) (sym (len-append scheme rest))
        (slice-append_right scheme rest))

pub both : (a b : Bool) → (a && b) ≡ true → (a ≡ true) × (b ≡ true)
both true b h = (refl, h)
both false b h = ground arith

split_scheme :
    (uri : String)
    → (ltb 7 (len uri) && starts_with uri scheme) ≡ true
    → (rest : String) × IsSchemed uri rest
split_scheme uri h =
    let long : ltb 7 (len uri) ≡ true = ground arith in
    let (rest, e) =
      (starts_with_iff uri scheme).0 (both (ltb 7 (len uri)) (starts_with uri scheme) h).1 in
    let size : len uri ≡ len scheme + len rest = sym (ap len e) ∙ len-append scheme rest in
    (rest, ((λ z. let nil : len rest ≡ 0 = ap len z in ground (arith, long, size, nil)), sym e))

resolve_other :
    (uri : String) → ((rest : String) → ¬ IsSchemed uri rest) → resolve_file_path uri ≡ uri
unfolding resolve_file_path
resolve_other uri n = elim (Bool-cases (ltb 7 (len uri) && starts_with uri scheme)) [
  | inr other ↦ rw other refl
  | inl same ↦ let (rest, h) = split_scheme uri same in absurd (n rest h)
]

pub Names-resolve : (uri path : String) → Names uri path → path ≡ resolve_file_path uri
Names-resolve uri path (inl h) = sym (resolve_scheme uri path h)
Names-resolve uri path (inr (n, e)) = e ∙ sym (resolve_other uri n)

pub resolve-Names : (uri : String) → Names uri (resolve_file_path uri)
unfolding resolve_file_path
resolve-Names uri = elim (Bool-cases (ltb 7 (len uri) && starts_with uri scheme)) [
  | inl same ↦
      let (rest, h) = split_scheme uri same in
      inl (subst (IsSchemed uri) (sym (resolve_scheme uri rest h)) h)
  | inr other ↦ inr (
    (λ rest h.
        let e = h.1 in
        let long : ltb 7 (len uri) ≡ true =
          ground (arith, ap len e, len-append scheme rest, len_positive rest h.0) in
        let starts : starts_with uri scheme ≡ true =
          subst (λ u. starts_with u scheme ≡ true) (sym e) (starts_with-append scheme rest) in
        ground arith),
    rw other refl,
  )
]
