-- ===== src/Rules/Service/Parse.antt =====
-- `ParseRuleDefinition` of ast.go. The decoder of `encoding/json` is a parameter.
use ropus.Common.{
  String, str_eq, Bool, false, ◌||◌, ◌&&◌, not, Option, none, some, if◌then◌else◌, is_some,
}
use ropus.Common.Int.{ℤ}
use ropus.Rules.Ast.{AstNode, node, nil, cons}

pub record RuleDefinition (F : Type 0) : Type 0 where
  pub condition : AstNode F
  pub action : String
  pub reason_code : String
  pub priority : ℤ

abbrev is_blank : {F : Type 0} → AstNode F → Bool
is_blank (node comb nil name op v) = str_eq comb "" && str_eq name ""
is_blank (node comb (cons _ _) name op v) = false

abbrev is_named : {F : Type 0} → AstNode F → Bool
is_named (node comb children name op v) = not (str_eq comb "") || not (str_eq name "")

abbrev with_direct : {F : Type 0} → RuleDefinition F → Option (AstNode F) → RuleDefinition F
with_direct def none = def
with_direct def (some n) = if is_named n then record def { condition = n } else def

abbrev completed :
    {F : Type 0} → Option (RuleDefinition F) → Option (AstNode F) → Option (RuleDefinition F)
completed none direct = none
completed (some def) direct = some (if is_blank def.condition then with_direct def direct else def)

unfoldable pub parse_rule_definition :
    {F : Type 0}
    → (String → Option (RuleDefinition F))
    → (String → Option (AstNode F))
    → String
    → Option (RuleDefinition F)
parse_rule_definition unmarshal_rule unmarshal_node raw =
    completed (unmarshal_rule raw) (unmarshal_node raw)

-- Whether a text is accepted.
abbrev pub parses :
    {F : Type 0}
    → (String → Option (RuleDefinition F))
    → (String → Option (AstNode F))
    → String
    → Bool
parses unmarshal_rule unmarshal_node raw =
    is_some (parse_rule_definition unmarshal_rule unmarshal_node raw)
