-- ===== src/Incidents/Ids.antt =====
-- The ids that `raiseOrUpdateLocked` of incident_engine.go makes once the history is full.
use ropus.Common.{
  ℕ, suc, ◌+◌, ◌-◌, ◌/◌, ◌<◌, ◌≡◌, ◌≢◌, ◌∙◌, refl, sym, ap, subst, String, str_eq, eq_iff, true,
  false, none, some, List, [], ◌∷◌, ◌++◌, length, length-append, All, arith, Bool-cases, inl, inr,
  ◌==◌, ltb,
}
use ropus.Common.Dict.{lookup, insert, lookup-insert}
use ropus.Retraining.State.{write_at}
use ropus.Incidents.{
  Incident, IncidentEngine, Report, is_resolved, new_incident, file, raise_or_update, trim,
  find_incident, acknowledge_incident, resolve_incident,
}

trim_full :
    (max_history x y : ℕ) (xs : List ℕ)
    → length (x ∷ xs) ≡ max_history
    → trim max_history ((x ∷ xs) ++ y ∷ []) ≡ xs ++ y ∷ []
trim_full max_history x y xs h =
    let n : length ((x ∷ xs) ++ y ∷ []) ≡ suc max_history =
      omega (arith, length-append (x ∷ xs) (y ∷ []), h) in
    let long : ltb max_history (suc max_history) ≡ true = ground arith in
    let one : suc max_history - max_history ≡ 1 = omega arith in rw (n, long, one) refl

module _ (heap : ℕ → Incident) (id : String) where
  find_incident-append :
      (xs ys : List ℕ) (p : ℕ)
      → find_incident id heap xs ≡ some p
      → find_incident id heap (xs ++ ys) ≡ some p
  unfolding find_incident
  find_incident-append [] ys p h = ground arith
  find_incident-append (x ∷ xs) ys p h = ground (arith, find_incident-append xs ys p)

  -- Where the last one has the id, the loop stops at it or before it.
  find_incident_last :
      (xs : List ℕ) (n m : ℕ)
      → All (λ ref. ref < m) xs
      → n < m
      → (heap n).incident_id ≡ id
      → (p : ℕ) × (find_incident id heap (xs ++ n ∷ []) ≡ some p) × (p < m)
  unfolding find_incident
  find_incident_last [] n m h l e = (n, ground (arith, eq_iff (heap n).incident_id id), l)
  find_incident_last (x ∷ xs) n m h l e = elim (Bool-cases (str_eq (heap x).incident_id id)) [
    | inl same ↦ (x, rw same refl, h.0)
    | inr other ↦
        let (p, found, below) = find_incident_last xs n m h.1 l e in (p, rw other found, below)
  ]

All-below : (m : ℕ) (xs : List ℕ) → All (λ ref. ref < m) xs → All (λ ref. ref < m + 1) xs
All-below m [] h = tt
All-below m (x ∷ xs) h = (omega (arith, h.0), All-below m xs h.1)

-- Calls by an id that the loop finds elsewhere leave an incident alone.
missed :
    (ie : IncidentEngine) (id actor : String) (now p m : ℕ)
    → find_incident id ie.heap ie.incident_list ≡ some p
    → p < m
    → ((acknowledge_incident id actor ie).1.heap m ≡ ie.heap m)
      × ((resolve_incident id actor now ie).1.heap m ≡ ie.heap m)
unfolding acknowledge_incident resolve_incident
missed ie id actor now p m found l =
    let other : (m == p) ≡ false = ground (arith, l) in
    (
      elim (Bool-cases (is_resolved (ie.heap p).status)) [
        | inl closed ↦ rw (acknowledge_incident, found, closed) refl
        | inr live ↦ rw (acknowledge_incident, found, live, other) refl
      ],
      rw (resolve_incident, found, other) refl,
    )

module _ (decimal : ℕ → String) where
  -- What a new incident changes, apart from the effects.
  raise-new :
      (r : Report) (now : ℕ) (ie : IncidentEngine)
      → lookup r.key ie.incidents ≡ none
      → let e = raise_or_update decimal r now ie in
        (e.heap ≡ write_at ie.next (λ old. new_incident decimal r now ie) ie.heap)
        × (e.next ≡ ie.next + 1)
        × (e.incidents ≡ insert r.key ie.next ie.incidents)
        × (e.incident_list ≡ trim ie.max_history (ie.incident_list ++ ie.next ∷ []))
        × (e.max_history ≡ ie.max_history)
  unfolding raise_or_update file
  raise-new r now ie new =
      rw (raise_or_update, new)
        (ground arith, ground arith, ground arith, ground arith, ground arith)

  -- Two incidents with one id. Once the history is full, two new incidents that are raised in the
  -- same second have the same id; and whatever actor acknowledges or resolves that id, the second
  -- of them stays as it is.
  pub ids_collide :
      (r r' : Report) (now now' a b : ℕ) (rest : List ℕ) (actor : String) (ie : IncidentEngine)
      → ie.incident_list ≡ a ∷ b ∷ rest
      → length ie.incident_list ≡ ie.max_history
      → All (λ ref. ref < ie.next) ie.incident_list
      → lookup r.key ie.incidents ≡ none
      → lookup r'.key ie.incidents ≡ none
      → r.key ≢ r'.key
      → now / 1000000000 ≡ now' / 1000000000
      → let ie2 = raise_or_update decimal r' now' (raise_or_update decimal r now ie) in
        let id = (ie2.heap (ie.next + 1)).incident_id in
        ((ie2.heap ie.next).incident_id ≡ id)
        × ((acknowledge_incident id actor ie2).1.heap (ie.next + 1) ≡ ie2.heap (ie.next + 1))
        × ((resolve_incident id actor now' ie2).1.heap (ie.next + 1) ≡ ie2.heap (ie.next + 1))
  ids_collide r r' now now' a b rest actor ie shape full old new new' differ second =
      let ie1 = raise_or_update decimal r now ie in
      let ie2 = raise_or_update decimal r' now' ie1 in
      let (heap1, next1, incidents1, list1, max1) = raise-new r now ie new in
      let free : lookup r'.key ie1.incidents ≡ none =
        rw incidents1
          (ground (arith, eq_iff r.key r'.key, lookup-insert r.key r'.key ie.next ie.incidents)) in
      let (heap2, next2, incidents2, list2, max2) = raise-new r' now' ie1 free in
      let full1 : length (a ∷ b ∷ rest) ≡ ie.max_history = sym (ap length shape) ∙ full in
      let shape1 : ie1.incident_list ≡ b ∷ (rest ++ ie.next ∷ []) =
        list1 ∙ (rw shape (trim_full ie.max_history a ie.next (b ∷ rest) full1)) in
      let grown : length (b ∷ (rest ++ ie.next ∷ [])) ≡ ie.max_history =
        omega (arith, length-append rest (ie.next ∷ []), full1) in
      let full2 : length ie1.incident_list ≡ ie.max_history = ap length shape1 ∙ grown in
      let shape2 : ie2.incident_list ≡ (rest ++ ie.next ∷ []) ++ (ie.next + 1) ∷ [] =
        list2
        ∙ rw (max1, next1, shape1)
            (trim_full ie.max_history b (ie.next + 1) (rest ++ ie.next ∷ []) grown) in
      let apart : (ie.next == (ie.next + 1)) ≡ false = ground arith in
      let here : (n : ℕ) → (n == n) ≡ true = λ n. ground arith in
      let first : ie2.heap ie.next ≡ new_incident decimal r now ie =
        rw (heap2, next1, apart, heap1, here ie.next) refl in
      let last : ie2.heap (ie.next + 1) ≡ new_incident decimal r' now' ie1 =
        rw (heap2, next1, here (ie.next + 1)) refl in
      let same : (ie2.heap ie.next).incident_id ≡ (ie2.heap (ie.next + 1)).incident_id =
        rw (first, last, second, full, full2) refl in
      let below : All (λ ref. ref < ie.next + 1) rest =
        All-below ie.next rest (subst (All (λ ref. ref < ie.next)) shape old).1.1 in
      let (p, found, l) =
        find_incident_last ie2.heap (ie2.heap (ie.next + 1)).incident_id rest ie.next (ie.next + 1)
          below (omega arith) same in
      let found2 : find_incident (ie2.heap (ie.next + 1)).incident_id ie2.heap ie2.incident_list
          ≡ some p =
        rw shape2
          (find_incident-append ie2.heap _ (rest ++ ie.next ∷ []) ((ie.next + 1) ∷ []) p found) in
      let (acks, resolves) =
        missed ie2 (ie2.heap (ie.next + 1)).incident_id actor now' p (ie.next + 1) found2 l in
      (same, acks, resolves)
