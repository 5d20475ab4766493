-- ===== src/Rules/Service/Editor.antt =====
-- Who has written a rule of service.go that is in force.
use ropus.Common.{ℕ, ◌≡◌, ◌≢◌, refl, String, eq_iff, Bool, true, none, some, [], arith}
use ropus.Rules.Service.{
  RuleStatus, pending_approval, active, Rule, UpdateRuleInput, Table, update_row, get_rule,
  new_text, edited, approval, check_transition, transitioned,
}
use ropus.Rules.Service.Checked.{new_status_lem}
use ropus.Rules.Service.Steps.{
  editing, moving, State, write, reads_to_edit, reads_to_move, writes, Steps, done, then_step,
}

pub update_row_at :
    (t k : String) (f : Rule → Rule) (table : Table) (r : Rule)
    → table t k ≡ some r
    → update_row t k f table t k ≡ some (f r)
unfolding update_row
update_row_at t k f table r e = ground (arith, eq_iff t t, eq_iff k k)

pub new_text_given :
    (parses : String → Bool) (input : UpdateRuleInput) (r : Rule)
    → parses input.dsl_ast ≡ true
    → input.dsl_ast ≢ ""
    → new_text parses input r ≡ some input.dsl_ast
unfolding new_text
new_text_given parses input r p n = ground (arith, eq_iff input.dsl_ast "")

pub approval_of_other :
    (actor : String) (r : Rule)
    → r.status ≡ pending_approval
    → actor ≢ ""
    → actor ≢ r.created_by
    → approval actor r ≡ none
unfolding approval
approval_of_other actor r p n o = ground (arith, eq_iff actor "", eq_iff actor r.created_by)

module _ (parses : String → Bool) (now : ℕ) (t k : String) where
  -- The state after a method that nothing comes between.
  abbrev after_edit : UpdateRuleInput → Rule → State → State
  after_edit input r s = record s {
    table = update_row t k (edited now input r input.dsl_ast) s.table;
  }

  abbrev after_move : RuleStatus → String → Rule → State → State
  after_move target actor r s = record s {
    table = update_row t k (transitioned now target actor r) s.table;
  }

  edit_runs :
      (input : UpdateRuleInput) (r : Rule) (s : State)
      → s.table t k ≡ some r
      → new_text parses input r ≡ some input.dsl_ast
      → Steps parses s (after_edit input r s)
  unfolding get_rule write
  edit_runs input r s e n =
      then_step (then_step done (reads_to_edit t k input input.dsl_ast r e n))
        (writes now [] (editing t k input input.dsl_ast r) s.requests refl)

  move_runs :
      (target : RuleStatus) (actor : String) (r : Rule) (s0 s : State)
      → Steps parses s0 s
      → s.table t k ≡ some r
      → check_transition target actor r ≡ none
      → Steps parses s0 (after_move target actor r s)
  unfolding get_rule write
  move_runs target actor r s0 s steps e c =
      then_step (then_step steps (reads_to_move t k target actor r e c))
        (writes now [] (moving t k target actor r) s.requests refl)

  -- The author of a text approves it. Any actor who has a name and has not created a rule can give
  -- it a text of his own that parses, submit it and approve it, with no other request in between:
  -- the rule is then active with that text, and he is the approver.
  pub editor_approves :
      (r : Rule) (input : UpdateRuleInput) (s : State)
      → s.table t k ≡ some r
      → parses input.dsl_ast ≡ true
      → input.dsl_ast ≢ ""
      → input.updated_by ≢ ""
      → input.updated_by ≢ r.created_by
      → (s' : State) × (r' : Rule) × Steps parses s s'
        × (s'.table t k ≡ some r')
        × (r'.status ≡ active)
        × (r'.dsl_ast ≡ input.dsl_ast)
        × (r'.approved_by ≡ some input.updated_by)
  unfolding check_transition edited transitioned
  editor_approves r input s e parse named someone other =
      let by = input.updated_by in
      let r1 = edited now input r input.dsl_ast r in
      let r2 = transitioned now pending_approval by r1 r1 in
      let r3 = transitioned now active by r2 r2 in
      let s1 = after_edit input r s in
      let s2 = after_move pending_approval by r1 s1 in
      let s3 = after_move active by r2 s2 in
      let e1 = update_row_at t k (edited now input r input.dsl_ast) s.table r e in
      let e2 = update_row_at t k (transitioned now pending_approval by r1) s1.table r1 e1 in
      let e3 = update_row_at t k (transitioned now active by r2) s2.table r2 e2 in
      let run1 = edit_runs input r s e (new_text_given parses input r parse named) in
      let run2 =
        move_runs pending_approval by r1 s s1 run1 e1 (rw (new_status_lem r.status) refl) in
      let run3 = move_runs active by r2 s s2 run2 e2 (approval_of_other by r2 refl someone other) in
      (s3, r3, run3, e3, refl, refl, refl)
