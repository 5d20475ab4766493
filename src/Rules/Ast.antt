-- ===== src/Rules/Ast.antt =====
-- The evaluation of a condition against a context, of ast.go.
pub mod Dual
pub mod Missing
use ropus.Common.{
  String, str_eq, ◌||◌, ◌&&◌, Bool, true, false, not, Option, none, some, List, [], ◌∷◌,
  if◌then◌else◌,
}
use ropus.Rules.Text.{to_upper, split_dots}
use ropus.Rules.Value.{
  Value, null, object, Fields, Formats, lookup_field, EvalError, unsupported_combinator,
  missing_field, Outcome, answers, fails, evaluate_operator,
}

mutual
  pub data AstNode (F : Type 0) : Type 0 where
    node : String → AstNodes F → String → String → Value F → AstNode F

  pub data AstNodes (F : Type 0) : Type 0 where
    nil : AstNodes F
    cons : AstNode F → AstNodes F → AstNodes F

pub data Combinator : Type 0 where
  conjunction disjunction negation unsupported : Combinator

-- A node with neither a combinator nor children is a leaf.
abbrev pub is_leaf : {F : Type 0} → String → AstNodes F → Bool
is_leaf comb nil = str_eq comb ""
is_leaf comb (cons _ _) = false

unfoldable pub combinator_of : String → Combinator
combinator_of comb =
    if str_eq comb "" || str_eq comb "AND"
    then conjunction
    else if str_eq comb "OR"
    then disjunction
    else if str_eq comb "NOT"
    then negation
    else unsupported

-- `resolveField`: the path of maps, and the whole.
unfoldable pub traverse : {F : Type 0} → List String → Value F → Option (Value F)
unfolding lookup_field
traverse [] v = some v
traverse (part ∷ parts) (object fs) = elim (lookup_field part fs) [
  | some v ↦ traverse parts v
  | none ↦ none
]
traverse (part ∷ parts) _ = none

unfoldable pub resolve_field : {F : Type 0} → Fields F → String → Option (Value F)
unfolding lookup_field traverse split_dots
resolve_field ctx path = elim (lookup_field path ctx) [
  | some v ↦ some v
  | none ↦ traverse (split_dots path) (object ctx)
]

abbrev pub is_null : {F : Type 0} → Value F → Bool
is_null null = true
is_null _ = false

-- `!matched`, where there is no error.
abbrev pub negated : Outcome → Outcome
negated (answers b) = answers (not b)
negated (fails e) = fails e

-- The two loops.
unfoldable pub all_match : List Outcome → Outcome
all_match [] = answers true
all_match (answers true ∷ rest) = all_match rest
all_match (answers false ∷ rest) = answers false
all_match (fails e ∷ rest) = fails e

unfoldable pub any_match : List Outcome → Outcome
any_match [] = answers false
any_match (answers false ∷ rest) = any_match rest
any_match (answers true ∷ rest) = answers true
any_match (fails e ∷ rest) = fails e

unfoldable pub combine : String → Combinator → List Outcome → Outcome
unfolding all_match any_match
combine comb conjunction outcomes = all_match outcomes
combine comb disjunction outcomes = any_match outcomes
combine comb negation [] = answers true
combine comb negation (o ∷ rest) = negated o
combine comb unsupported outcomes = fails (unsupported_combinator comb)

module _ (fm : Formats) (ctx : Fields fm.F) where
  open fm use {F}

  unfoldable pub compare : String → Value F → Option (Value F) → Outcome
  unfolding evaluate_operator to_upper
  compare op v (some a) = evaluate_operator fm a op v
  compare op v none = answers (
      (str_eq (to_upper fm.upper op) "==" && is_null v)
      || (str_eq (to_upper fm.upper op) "!=" && not (is_null v)))

  unfoldable pub leaf : String → String → Value F → Outcome
  unfolding compare resolve_field
  leaf name op v =
      if str_eq name "" then fails missing_field else compare op v (resolve_field ctx name)

  -- `Evaluate`. The outcomes of the children are read only as far as the loops read them.
  unfoldable mutual
    unfolding leaf to_upper combinator_of combine

    pub evaluate : AstNode F → Outcome
    evaluate (node comb children name op v) =
        let outcomes = evaluate_all children in
        if is_leaf comb children
        then leaf name op v
        else combine comb (combinator_of (to_upper fm.upper comb)) outcomes

    pub evaluate_all : AstNodes F → List Outcome
    evaluate_all nil = []
    evaluate_all (cons child rest) = evaluate child ∷ evaluate_all rest
