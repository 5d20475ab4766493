-- ===== src/Rules/Service.antt =====
-- `Service` of backend/internal/rules/service.go on a database: a statement on the table of rules is
-- one function, and the read and the write of a method are apart, since other requests come between.
-- `encoding/json`, the new identifier and the clock are arguments. A statement does not fail.
pub mod Parse
pub mod Steps
pub mod Checked
pub mod MakerChecker
pub mod Editor
pub mod Race
use ropus.Common.{
  ℕ, ◌+◌, String, str_eq, ◌&&◌, ◌||◌, Bool, true, false, not, Option, none, some, if◌then◌else◌,
  ◌==◌,
}

pub data RuleStatus : Type 0 where
  draft pending_approval shadow active archived : RuleStatus

pub record Rule : Type 0 where
  pub id : String
  pub tenant_id : String
  pub name : String
  pub description : String
  pub dsl_ast : String
  pub status : RuleStatus
  pub version : ℕ
  pub created_by : String
  pub approved_by : Option String
  pub created_at : ℕ
  pub updated_at : ℕ

pub record CreateRuleInput : Type 0 where
  pub tenant_id : String
  pub name : String
  pub description : String
  pub dsl_ast : String
  pub created_by : String

pub record UpdateRuleInput : Type 0 where
  pub name : String
  pub description : String
  pub dsl_ast : String
  pub updated_by : String

pub data ServiceError : Type 0 where
  not_found maker_checker_violation invalid_dsl duplicate : ServiceError
  invalid_status_change : RuleStatus → ServiceError

-- The rows by tenant and rule.
abbrev pub Table : Type 0
Table = String → String → Option Rule

-- `WHERE tenant_id = … AND rule_id = …`
abbrev pub is_row : String → String → String → String → Bool
is_row t k t' k' = str_eq t t' && str_eq k k'

abbrev pub map_row : (Rule → Rule) → Option Rule → Option Rule
map_row f none = none
map_row f (some r) = some (f r)

-- An UPDATE of the row, if there is one.
unfoldable pub update_row : String → String → (Rule → Rule) → Table → Table
update_row t k f table t' k' = if is_row t k t' k' then map_row f (table t' k') else table t' k'

abbrev pub default_tenant : String → String
default_tenant t = if str_eq t "" then "00000000-0000-0000-0000-000000000001" else t

abbrev pub default_creator : String → String
default_creator a = if str_eq a "" then "system" else a

unfoldable pub new_rule : ℕ → String → CreateRuleInput → Rule
new_rule now id input = record {
  id = id;
  tenant_id = default_tenant input.tenant_id;
  name = input.name;
  description = input.description;
  dsl_ast = input.dsl_ast;
  status = draft;
  version = 1;
  created_by = default_creator input.created_by;
  approved_by = none;
  created_at = now;
  updated_at = now;
}

-- An INSERT, which fails where the row is there.
abbrev pub placed : Rule → Table → Option Rule → Option Table
placed r table (some _) = none
placed r table none = some (λ t k. if is_row r.tenant_id r.id t k then some r else table t k)

unfoldable pub insert_row : Rule → Table → Option Table
insert_row r table = placed r table (table r.tenant_id r.id)

abbrev inserted : Rule → Table → Option Table → Option ServiceError × Table
inserted r table none = (some duplicate, table)
inserted r table (some table') = (none, table')

-- `CreateRule`, where the identifier is the one that is made.
unfoldable pub create_rule :
    (String → Bool) → ℕ → String → CreateRuleInput → Table → Option ServiceError × Table
unfolding new_rule insert_row
create_rule parses now id input table =
    let r = new_rule now id input in
    if not (parses input.dsl_ast)
    then (some invalid_dsl, table)
    else inserted r table (insert_row r table)

unfoldable pub get_rule : String → String → Table → Option Rule
get_rule t k table = table t k

-- The text that `UpdateRule` writes: its own, which must parse, or the present one.
unfoldable pub new_text : (String → Bool) → UpdateRuleInput → Rule → Option String
new_text parses input current =
    if str_eq input.dsl_ast ""
    then some current.dsl_ast
    else if parses input.dsl_ast
    then some input.dsl_ast
    else none

-- `newStatus`
abbrev pub new_status : RuleStatus → RuleStatus
new_status draft = draft
new_status _ = draft

-- The UPDATE of `UpdateRule`.
unfoldable pub edited : ℕ → UpdateRuleInput → Rule → String → Rule → Rule
edited now input current dsl r = record r {
  name = input.name;
  description = input.description;
  dsl_ast = dsl;
  status = new_status current.status;
  version = current.version + 1;
  updated_at = now;
}

abbrev is_draft : RuleStatus → Bool
is_draft draft = true
is_draft _ = false

abbrev is_approvable : RuleStatus → Bool
is_approvable pending_approval = true
is_approvable shadow = true
is_approvable _ = false

-- An approval by the actor.
unfoldable pub approval : String → Rule → Option ServiceError
approval actor current =
    if not (is_approvable current.status)
    then some (invalid_status_change current.status)
    else if str_eq actor ""
    then some maker_checker_violation
    else if not (str_eq current.created_by "") && str_eq actor current.created_by
    then some maker_checker_violation
    else none

-- The tests of `TransitionStatus` on the rule as it was read.
unfoldable pub check_transition : RuleStatus → String → Rule → Option ServiceError
unfolding approval
check_transition pending_approval actor current =
    if is_draft current.status then none else some (invalid_status_change current.status)
check_transition active actor current = approval actor current
check_transition shadow actor current = approval actor current
check_transition draft actor current = none
check_transition archived actor current = none

-- `approvedBy`
abbrev pub approver : RuleStatus → String → Rule → Option String
approver pending_approval actor current = none
approver active actor current = some actor
approver shadow actor current = some actor
approver draft actor current = none
approver archived actor current = current.approved_by

-- The UPDATE of `TransitionStatus`.
unfoldable pub transitioned : ℕ → RuleStatus → String → Rule → Rule → Rule
transitioned now target actor current r = record r {
  status = target;
  approved_by = approver target actor current;
  updated_at = now;
}
