-- ===== src/Rules/Service/MakerChecker.antt =====
-- Who has approved a rule of service.go that is in force.
use ropus.Common.{
  ℕ, ◌≡◌, ◌≢◌, sym, subst, refl, String, Bool, true, some, List, [], ◌∷◌, ◌++◌, All, arith, inl,
  inr,
}
use ropus.Rules.Service.{Rule, Table, new_rule, get_rule, edited, transitioned}
use ropus.Rules.Service.Steps.{
  Request, editing, moving, State, write, start, Step, creates, reads_to_edit, reads_to_move,
  writes, Steps, done, then_step,
}
use ropus.Rules.Service.Checked.{
  is_in_force, IsChecked, IsGood, AllGood, IsFounded, KeepsCreators, IsFounded-kept, new_status_lem,
  approved-IsChecked, update_row-KeepsCreators, update_row-AllGood, create_cases, new_rule-IsGood,
  placed-AllGood, placed-KeepsCreators, row_creator,
}

-- The table is good, and so are the requests that are to be written.
IsSound : State → Type 0
IsSound s = AllGood s.table × All (IsFounded s.table) s.requests

write-AllGood :
    (now : ℕ) (q : Request) (table : Table)
    → IsFounded table q
    → AllGood table
    → AllGood (write now q table)
unfolding write IsFounded edited transitioned IsGood IsChecked
write-AllGood now (editing t k input dsl current) table f h =
    update_row-AllGood t k _ table
      (λ r e. ((h t k r e).0, λ d. ground (arith, new_status_lem current.status))) h
write-AllGood now (moving t k target actor current) table (m, p) h =
    update_row-AllGood t k (transitioned now target actor current) table
      (λ r e. (
        (h t k r e).0,
        approved-IsChecked target now actor current r (h t k r e).0
            (row_creator table t k current r m e) p,
      ))
      h

write-KeepsCreators :
    (now : ℕ) (q : Request) (table : Table) → KeepsCreators table (write now q table)
unfolding write edited transitioned
write-KeepsCreators now (editing t k input dsl current) table =
    update_row-KeepsCreators t k _ table (λ r. refl)
write-KeepsCreators now (moving t k target actor current) table =
    update_row-KeepsCreators t k _ table (λ r. refl)

All-kept :
    (table table' : Table) (qs : List Request)
    → KeepsCreators table table'
    → All (IsFounded table) qs
    → All (IsFounded table') qs
All-kept table table' [] h a = tt
All-kept table table' (q ∷ qs) h (f, a) =
    (IsFounded-kept table table' q h f, All-kept table table' qs h a)

All-middle :
    (P : Request → Type 0) (before : List Request) (q : Request) (after : List Request)
    → All P (before ++ (q ∷ after))
    → P q × All P (before ++ after)
All-middle P [] q after (p, a) = (p, a)
All-middle P (b ∷ before) q after (p, a) =
    let (pq, rest) = All-middle P before q after a in (pq, (p, rest))

module _ (parses : String → Bool) where
  next-IsSound : (s s' : State) → Step parses s s' → IsSound s → IsSound s'
  unfolding IsSound IsFounded get_rule
  next-IsSound s _ (creates now id input) (h, a) = elim (create_cases parses now id input s.table) [
    | inl same ↦ subst (λ table. AllGood table × All (IsFounded table) s.requests) (sym same) (h, a)
    | inr (free, new) ↦
        let r = new_rule now id input in
        subst (λ table. AllGood table × All (IsFounded table) s.requests) (sym new)
          (
            placed-AllGood r s.table (new_rule-IsGood now id input) h,
            All-kept s.table _ s.requests (placed-KeepsCreators r s.table free) a,
          )
  ]
  next-IsSound s _ (reads_to_edit t k input dsl current e q) (h, a) = (h, ((current, e, refl), a))
  next-IsSound s _ (reads_to_move t k target actor current e q) (h, a) =
      (h, (((current, e, refl), q), a))
  next-IsSound s _ (writes now before q after e) (h, a) =
      let (f, rest) =
        All-middle (IsFounded s.table) before q after (subst (All (IsFounded s.table)) e a) in
      (
        write-AllGood now q s.table f h,
        All-kept s.table _ (before ++ after) (write-KeepsCreators now q s.table) rest,
      )

  reached-IsSound : (s : State) → Steps parses start s → IsSound s
  unfolding IsSound start
  reached-IsSound s done = (λ t k r e. ground arith, tt)
  reached-IsSound s (then_step r k) = next-IsSound _ s k (reached-IsSound _ r)

  -- Maker and checker. Whatever requests are made to an empty table, in any interleaving of their
  -- reads and writes: a rule that is active or in shadow names the actor who has approved it, and
  -- that actor is not the rule's creator.
  pub maker_checker :
      (s : State) (t k : String) (r : Rule)
      → Steps parses start s
      → s.table t k ≡ some r
      → is_in_force r.status ≡ true
      → (actor : String) × (r.approved_by ≡ some actor) × (actor ≢ "") × (actor ≢ r.created_by)
  unfolding IsSound IsGood IsChecked
  maker_checker s t k r steps e live = ((reached-IsSound s steps).0 t k r e).1 live
