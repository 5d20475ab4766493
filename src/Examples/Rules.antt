-- ===== src/Examples/Rules.antt =====
-- Tests of ast.go and service.go of backend/internal/rules, over natural numbers as floats.
use Prim.Native.Char.{code}
use ropus.Common.{
  if◌then◌else◌, ℕ, ◌+◌, ◌≡◌, ◌≢◌, refl, String, str_eq, eq_iff, Bool, true, none, some, [], ◌∷◌,
  ltb, leb, ◌==◌, arith,
}
use ropus.Rules.Text.{to_upper, split_dots}
use ropus.Rules.Value.{Value, null, number, str, Fields, empty, field, Formats, answers}
use ropus.Rules.Ast.{AstNode, node, nil, cons, negated, leaf, evaluate}
use ropus.Rules.Ast.Dual.{KeepsCapitals, dual, de_morgan}
use ropus.Rules.Service.{
  RuleStatus, pending_approval, active, Rule, CreateRuleInput, UpdateRuleInput, update_row,
  new_rule, insert_row, create_rule, get_rule, check_transition, approval, transitioned,
}
use ropus.Rules.Service.Steps.{
  moving, State, start, write, Step, creates, reads_to_move, writes, Steps, done, then_step,
}
use ropus.Rules.Service.Checked.{is_in_force}
use ropus.Rules.Service.MakerChecker.{maker_checker}
use ropus.Rules.Service.Editor.{editor_approves}
use ropus.Rules.Service.Race.{approve_race}

abbrev print : Value ℕ → String
print (str s) = s
print (number n) = "a number"
print _ = "other"

abbrev plain : Formats
plain = record {
  F = ℕ;
  is_gt = λ a b. ltb b a;
  is_ge = λ a b. leb b a;
  is_same = λ a b. a == b;
  parse_float = λ s. if str_eq s "10" then some 10 else none;
  print = print;
  upper = λ c. c;
  is_space = λ c. code c == 32;
}

splits_path : split_dots "velocity.ip.1hr" ≡ "velocity" ∷ "ip" ∷ "1hr" ∷ []
unfolding split_dots
splits_path = refl

abbrev context : Fields ℕ
context = field "amount" (number 12) (field "country" (str "DE") empty)

-- amount > "10" AND NOT country == "US"
abbrev condition : AstNode ℕ
condition =
    node "AND"
      (cons (node "" nil "amount" ">" (str "10"))
        (cons (node "NOT" (cons (node "" nil "country" "==" (str "US")) nil) "" "" null) nil))
      "" "" null

condition_holds : evaluate plain context condition ≡ answers true
unfolding evaluate leaf
condition_holds = refl

capitals : KeepsCapitals plain
unfolding to_upper
capitals = record { and_kept = refl; or_kept = refl; not_kept = refl }

de_morgan_example :
    evaluate plain context (dual plain condition) ≡ negated (evaluate plain context condition)
de_morgan_example = de_morgan plain context capitals condition

abbrev accepts_all : String → Bool
accepts_all _ = true

abbrev input : CreateRuleInput
input = record {
  tenant_id = "acme";
  name = "velocity";
  description = "";
  dsl_ast = "old";
  created_by = "ann";
}

abbrev created : State
created = record start { table = (create_rule accepts_all 1 "r1" input start.table).1 }

abbrev first : Rule
first = new_rule 1 "r1" input

first_there : created.table "acme" "r1" ≡ some first
unfolding create_rule new_rule insert_row start
first_there = refl

abbrev submitted : Rule
submitted = transitioned 2 pending_approval "ann" first first

abbrev moved : RuleStatus → String → Rule → State → State
moved target actor r s = record s {
  table = update_row "acme" "r1" (transitioned 2 target actor r) s.table;
}

abbrev pending : State
pending = moved pending_approval "ann" first created

abbrev in_force : State
in_force = moved active "bob" submitted pending

submitted_there : pending.table "acme" "r1" ≡ some submitted
unfolding create_rule new_rule insert_row start update_row
submitted_there = refl

abbrev approved : Rule
approved = transitioned 2 active "bob" submitted submitted

approved_there : in_force.table "acme" "r1" ≡ some approved
unfolding create_rule new_rule insert_row start update_row
approved_there = refl

can_submit : check_transition pending_approval "ann" first ≡ none
unfolding check_transition new_rule
can_submit = refl

can_approve : check_transition active "bob" submitted ≡ none
unfolding check_transition approval new_rule transitioned
can_approve = refl

abbrev asked : RuleStatus → String → Rule → State → State
asked target actor r s = record s { requests = moving "acme" "r1" target actor r ∷ [] }

life : Steps accepts_all start in_force
unfolding get_rule write start
life =
    let made : Steps accepts_all start created = then_step done (creates 1 "r1" input) in
    let asks : Step accepts_all created (asked pending_approval "ann" first created) =
      reads_to_move "acme" "r1" pending_approval "ann" first first_there can_submit in
    let submits : Step accepts_all (asked pending_approval "ann" first created) pending =
      writes 2 [] (moving "acme" "r1" pending_approval "ann" first) [] refl in
    let asks2 : Step accepts_all pending (asked active "bob" submitted pending) =
      reads_to_move "acme" "r1" active "bob" submitted submitted_there can_approve in
    let approves : Step accepts_all (asked active "bob" submitted pending) in_force =
      writes 2 [] (moving "acme" "r1" active "bob" submitted) [] refl in
    then_step (then_step (then_step (then_step made asks) submits) asks2) approves

approved-IsInForce : is_in_force approved.status ≡ true
unfolding transitioned
approved-IsInForce = refl

maker_checker_example :
    (actor : String) × (approved.approved_by ≡ some actor)
    × (actor ≢ "")
    × (actor ≢ approved.created_by)
maker_checker_example =
    maker_checker accepts_all in_force "acme" "r1" approved life approved_there approved-IsInForce

abbrev edit : UpdateRuleInput
edit = record { name = "velocity"; description = ""; dsl_ast = "new"; updated_by = "bob" }

new_named : ◌≢◌ {A = String} "new" ""
new_named = ground (arith, eq_iff "new" "")

bob_named : ◌≢◌ {A = String} "bob" ""
bob_named = ground (arith, eq_iff "bob" "")

bob_not_ann : "bob" ≢ first.created_by
unfolding new_rule
bob_not_ann = ground (arith, eq_iff "bob" "ann")

editor_approves_example :
    (s' : State) × (r' : Rule) × Steps accepts_all created s'
    × (s'.table "acme" "r1" ≡ some r')
    × (r'.status ≡ active)
    × (r'.dsl_ast ≡ "new")
    × (r'.approved_by ≡ some "bob")
editor_approves_example =
    editor_approves accepts_all 2 "acme" "r1" first edit created first_there refl new_named
      bob_named bob_not_ann

submitted-IsPending : submitted.status ≡ pending_approval
unfolding transitioned
submitted-IsPending = refl

bob_not_creator : "bob" ≢ submitted.created_by
unfolding new_rule transitioned
bob_not_creator = ground (arith, eq_iff "bob" "ann")

approve_race_example :
    (s' : State) × (r' : Rule) × Steps accepts_all pending s'
    × (s'.table "acme" "r1" ≡ some r')
    × (r'.status ≡ active)
    × (r'.dsl_ast ≡ "new")
    × (r'.version ≡ submitted.version + 1)
    × (r'.approved_by ≡ some "bob")
approve_race_example =
    approve_race accepts_all 2 "acme" "r1" "bob" submitted edit pending submitted_there
      submitted-IsPending bob_named bob_not_creator refl new_named
