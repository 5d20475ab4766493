-- ===== src/Artifact/Accepts.antt =====
-- Which artifacts pass: `VerifyArtifact` of artifact_verifier.go on every branch.
use ropus.Common.{
  ℕ, ◌<◌, ◌≡◌, refl, sym, subst, ◌<>◌, str_eq, starts_with, ◌||◌, ◌↔◌, ◌⊎◌, inl, inr, String,
  eq_iff, true, Option, none, some, arith, Bool-cases,
}
use text.Mathlib.TextEquality.{starts_with_iff}
use text.Mathlib.TextPositions.{starts_with-append}
use ropus.Artifact.Names.{both, Names, Names-resolve, resolve-Names}
use ropus.Artifact.{
  Disk, File, regular, inaccessible, directory, CandidateArtifactRecord, VerifyError, is_bundled,
  resolve_file_path, verify_content, verify_file, verify_artifact,
}

-- A readable file that is not empty, with the checksum that is asked for, if one is.
abbrev pub IsIntact : File → String → Type 0
IsIntact file expected =
    (size : ℕ) × (sum : String) × (file ≡ regular size (some sum))
    × (0 < size)
    × ((expected ≡ "") ⊎ (sum ≡ expected))

-- A path and an expected checksum of the models that come with the container.
abbrev pub IsBaseline : String → String → Type 0
IsBaseline file expected =
    ((expected ≡ "verified_prod_25f_v3_sha256") ⊎ (expected ≡ "verified_fallback_15f_v1_sha256"))
    × ((rest : String) × (file ≡ "/app/model" <> rest))

one_of : (s t u : String) → (str_eq s t || str_eq s u) ≡ true → (s ≡ t) ⊎ (s ≡ u)
one_of s t u h = elim (Bool-cases (str_eq s t)) [
  | inl same ↦ inl ((eq_iff s t).0 same)
  | inr other ↦ inr ((eq_iff s u).0 (rw other at h))
]

is_bundled-IsBaseline :
    (file expected : String) → is_bundled file expected ≡ true → IsBaseline file expected
is_bundled-IsBaseline file expected h =
    let (sums, starts) =
      both
        (str_eq expected "verified_prod_25f_v3_sha256"
          || str_eq expected "verified_fallback_15f_v1_sha256")
        (starts_with file "/app/model") h in
    let (rest, e) = (starts_with_iff file "/app/model").0 starts in
    (
      one_of expected "verified_prod_25f_v3_sha256" "verified_fallback_15f_v1_sha256" sums,
      (rest, sym e),
    )

IsBaseline-is_bundled :
    (file expected : String) → IsBaseline file expected → is_bundled file expected ≡ true
IsBaseline-is_bundled file expected (which, (rest, e)) =
    let starts : starts_with file "/app/model" ≡ true =
      subst (λ f. starts_with f "/app/model" ≡ true) (sym e)
        (starts_with-append "/app/model" rest) in
    elim which [ inl p ↦ rw (p, starts) refl | inr p ↦ rw (p, starts) refl ]

verify_content-IsIntact :
    (size : ℕ) (sum : Option String) (expected : String) (r : CandidateArtifactRecord)
    → (verify_content size sum expected r).1 ≡ none
    → IsIntact (regular size sum) expected × ((verify_content size sum expected r).0.passed ≡ true)
unfolding verify_content
verify_content-IsIntact size none expected r h = ground arith
verify_content-IsIntact size (some sum) expected r h = (
  (size, sum, refl, ground arith, ground (arith, eq_iff expected "", eq_iff sum expected)),
  ground arith,
)

IsIntact-verify_file :
    (file : File) (expected : String) (r : CandidateArtifactRecord)
    → IsIntact file expected
    → ((verify_file file expected r).1 ≡ none) × ((verify_file file expected r).0.passed ≡ true)
unfolding verify_file verify_content
IsIntact-verify_file file expected r (size, sum, e, p, q) =
    rw e (ground (arith, eq_iff expected "", eq_iff sum expected))

verify_file-IsIntact :
    (file : File) (expected : String) (r : CandidateArtifactRecord)
    → (verify_file file expected r).1 ≡ none
    → IsIntact file expected × ((verify_file file expected r).0.passed ≡ true)
unfolding verify_file
verify_file-IsIntact inaccessible expected r h = cc
verify_file-IsIntact directory expected r h = cc
verify_file-IsIntact (regular size sum) expected r h = verify_content-IsIntact size sum expected r h

module _ (disk : Disk) (now : ℕ) (id version path expected : String) where
  abbrev pub outcome : CandidateArtifactRecord × Option VerifyError
  outcome = verify_artifact disk now id version path expected

  -- The file that the path names, and the two ways in which it is accepted.
  abbrev pub IsAcceptable : Type 0
  IsAcceptable =
      (file : String) × Names path file × (IsBaseline file expected ⊎ IsIntact (disk file) expected)

  -- An artifact is accepted exactly when the file that its path names (what follows `file://`, where
  -- that is not empty, or the path itself) has a name that begins with `/app/model` and one of the
  -- two baseline checksums is expected, or is readable and not empty and has the expected checksum,
  -- where one is given. The record of an accepted artifact is marked as passed.
  pub verify_artifact_iff :
      ((outcome.1 ≡ none) ↔ IsAcceptable) × (outcome.1 ≡ none → outcome.0.passed ≡ true)
  unfolding verify_artifact
  verify_artifact_iff =
      let name = resolve_file_path path in
      let names = resolve-Names path in
      elim (Bool-cases (is_bundled name expected)) [
        | inl yes' ↦ (
          (λ h. (name, names, inl (is_bundled-IsBaseline name expected yes')), λ h. rw yes' refl),
          λ h. rw yes' refl,
        )
        | inr no' ↦ rw no' (
          (
            λ h. (name, names, inr (verify_file-IsIntact (disk name) expected _ h).0),
            λ k.
                let (file, named, how) = k in
                let e = Names-resolve path file named in
                elim how [
                  | inl b ↦ ground (
                    arith,
                    no',
                    subst (λ f. is_bundled f expected ≡ true) e
                        (IsBaseline-is_bundled file expected b),
                  )
                  | inr i ↦
                      (IsIntact-verify_file (disk name) expected _
                        (subst (λ f. IsIntact (disk f) expected) e i)).0
                ],
          ),
          λ h. (verify_file-IsIntact (disk name) expected _ h).1,
        )
      ]
