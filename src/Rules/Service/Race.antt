-- ===== src/Rules/Service/Race.antt =====
-- An approval of service.go against an edit.
use ropus.Common.{ℕ, ◌+◌, ◌≡◌, ◌≢◌, refl, String, Bool, true, some, [], ◌∷◌}
use ropus.Rules.Service.{
  pending_approval, active, Rule, UpdateRuleInput, update_row, get_rule, edited, check_transition,
  transitioned,
}
use ropus.Rules.Service.Editor.{new_text_given, approval_of_other, update_row_at}
use ropus.Rules.Service.Steps.{
  editing, moving, State, write, reads_to_edit, reads_to_move, writes, Steps, done, then_step,
}

module _ (parses : String → Bool) (now : ℕ) (t k : String) where
  -- An approval of what was not submitted. While a rule is pending, an approver who is not its
  -- creator reads it; an editor then gives it another text, which makes it a draft; and the approval
  -- is written all the same: the rule is active with the editor's text and its next version, which
  -- have never been pending.
  pub approve_race :
      (approver : String) (r : Rule) (input : UpdateRuleInput) (s : State)
      → s.table t k ≡ some r
      → r.status ≡ pending_approval
      → approver ≢ ""
      → approver ≢ r.created_by
      → parses input.dsl_ast ≡ true
      → input.dsl_ast ≢ ""
      → (s' : State) × (r' : Rule) × Steps parses s s'
        × (s'.table t k ≡ some r')
        × (r'.status ≡ active)
        × (r'.dsl_ast ≡ input.dsl_ast)
        × (r'.version ≡ r.version + 1)
        × (r'.approved_by ≡ some approver)
  unfolding get_rule write check_transition edited transitioned
  approve_race approver r input s e pending someone other parse named =
      let f = edited now input r input.dsl_ast in
      let g = transitioned now active approver r in
      let edit = editing t k input input.dsl_ast r in
      let move = moving t k active approver r in
      let table1 = update_row t k f s.table in
      let s1 : State = record s { table = update_row t k g table1 } in
      let e1 = update_row_at t k f s.table r e in
      let reads =
        then_step
          (then_step done (
            reads_to_move t k active approver r e
              (approval_of_other approver r pending someone other)))
          (reads_to_edit t k input input.dsl_ast r e (new_text_given parses input r parse named)) in
      let edits = then_step reads (writes now [] edit (move ∷ s.requests) refl) in
      (
        s1,
        g (f r),
        then_step edits (writes now [] move s.requests refl),
        update_row_at t k g table1 (f r) e1,
        refl,
        refl,
        refl,
        refl,
      )
