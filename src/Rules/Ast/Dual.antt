-- ===== src/Rules/Ast/Dual.antt =====
-- The negation of a condition of ast.go.
use ropus.Common.{
  ◌≡◌, refl, ap, ◌∙◌, sym, String, true, false, List, [], ◌∷◌, map, Bool-cases, inl, inr,
  if◌then◌else◌,
}
use ropus.Rules.Text.{to_upper}
use ropus.Rules.Value.{Value, null, Fields, Formats, Outcome, answers, fails}
use ropus.Rules.Ast.{
  AstNode, node, AstNodes, nil, cons, Combinator, conjunction, disjunction, negation, unsupported,
  is_leaf, combinator_of, negated, all_match, any_match, combine, evaluate, evaluate_all,
}

negated_twice : (o : Outcome) → negated (negated o) ≡ o
negated_twice (answers true) = refl
negated_twice (answers false) = refl
negated_twice (fails e) = refl

all_match-negated : (os : List Outcome) → all_match (map negated os) ≡ negated (any_match os)
unfolding all_match any_match
all_match-negated [] = refl
all_match-negated (answers true ∷ os) = refl
all_match-negated (answers false ∷ os) = all_match-negated os
all_match-negated (fails e ∷ os) = refl

any_match-negated : (os : List Outcome) → any_match (map negated os) ≡ negated (all_match os)
unfolding all_match any_match
any_match-negated [] = refl
any_match-negated (answers false ∷ os) = refl
any_match-negated (answers true ∷ os) = any_match-negated os
any_match-negated (fails e ∷ os) = refl

module _ {F : Type 0} where
  -- NOT around a node.
  abbrev pub wrapped : AstNode F → AstNode F
  wrapped n = node "NOT" (cons n nil) "" "" null

  -- AND and OR exchanged below the root, NOT taken away or put around: what stands for each kind of
  -- composite node.
  abbrev pub swapped : Combinator → AstNodes F → AstNodes F → AstNode F → AstNode F
  swapped conjunction duals children n = node "OR" duals "" "" null
  swapped disjunction duals children n = node "AND" duals "" "" null
  swapped negation duals nil n = node "OR" nil "" "" null
  swapped negation duals (cons c rest) n = c
  swapped unsupported duals children n = n

module _ (fm : Formats) where
  open fm use {F}

  unfoldable mutual
    unfolding combinator_of to_upper

    pub dual : AstNode F → AstNode F
    dual (node comb children name op v) =
        let duals = dual_all children in
        if is_leaf comb children
        then wrapped (node comb children name op v)
        else swapped (combinator_of (to_upper fm.upper comb)) duals children
            (node comb children name op v)

    pub dual_all : AstNodes F → AstNodes F
    dual_all nil = nil
    dual_all (cons c rest) = cons (dual c) (dual_all rest)

-- The three names are their own upper case, which is so in Unicode.
pub record KeepsCapitals (fm : Formats) : Type 0 where
  pub and_kept : to_upper fm.upper "AND" ≡ "AND"
  pub or_kept : to_upper fm.upper "OR" ≡ "OR"
  pub not_kept : to_upper fm.upper "NOT" ≡ "NOT"

module _ (fm : Formats) (ctx : Fields fm.F) (keeps : KeepsCapitals fm) where
  open fm use {F}

  evaluate-or :
      (ds : AstNodes F)
      → evaluate fm ctx (node "OR" ds "" "" null) ≡ any_match (evaluate_all fm ctx ds)
  unfolding evaluate combine combinator_of
  evaluate-or nil = rw (keeps.or_kept) refl
  evaluate-or (cons d ds) = rw (keeps.or_kept) refl

  evaluate-and :
      (ds : AstNodes F)
      → evaluate fm ctx (node "AND" ds "" "" null) ≡ all_match (evaluate_all fm ctx ds)
  unfolding evaluate combine combinator_of
  evaluate-and nil = rw (keeps.and_kept) refl
  evaluate-and (cons d ds) = rw (keeps.and_kept) refl

  evaluate-wrapped : (n : AstNode F) → evaluate fm ctx (wrapped n) ≡ negated (evaluate fm ctx n)
  unfolding evaluate combine combinator_of
  evaluate-wrapped n = rw (keeps.not_kept) refl

  evaluate-swapped :
      (comb : String) (k : Combinator) (duals children : AstNodes F) (n : AstNode F)
      → evaluate_all fm ctx duals ≡ map negated (evaluate_all fm ctx children)
      → evaluate fm ctx n ≡ combine comb k (evaluate_all fm ctx children)
      → evaluate fm ctx (swapped k duals children n) ≡ negated (evaluate fm ctx n)
  unfolding combine evaluate any_match
  evaluate-swapped comb conjunction duals children n e q =
      evaluate-or duals
      ∙ ap any_match e
      ∙ any_match-negated (evaluate_all fm ctx children)
      ∙ ap negated (sym q)
  evaluate-swapped comb disjunction duals children n e q =
      evaluate-and duals
      ∙ ap all_match e
      ∙ all_match-negated (evaluate_all fm ctx children)
      ∙ ap negated (sym q)
  evaluate-swapped comb negation duals nil n e q = evaluate-or nil ∙ ap negated (sym q)
  evaluate-swapped comb negation duals (cons c rest) n e q = sym (ap negated q ∙ negated_twice _)
  evaluate-swapped comb unsupported duals children n e q = rw q refl

  evaluate-composite :
      (comb : String) (children : AstNodes F) (name op : String) (v : Value F)
      → is_leaf comb children ≡ false
      → evaluate fm ctx (node comb children name op v)
        ≡ combine comb (combinator_of (to_upper fm.upper comb)) (evaluate_all fm ctx children)
  unfolding evaluate
  evaluate-composite comb children name op v h = rw h refl

  dual-leaf :
      (comb : String) (children : AstNodes F) (name op : String) (v : Value F)
      → is_leaf comb children ≡ true
      → dual fm (node comb children name op v) ≡ wrapped (node comb children name op v)
  unfolding dual
  dual-leaf comb children name op v h = rw h refl

  dual-composite :
      (comb : String) (children : AstNodes F) (name op : String) (v : Value F)
      → is_leaf comb children ≡ false
      → dual fm (node comb children name op v)
        ≡ swapped
            (combinator_of (to_upper fm.upper comb))
            (dual_all fm children)
            children
            (node comb children name op v)
  unfolding dual
  dual-composite comb children name op v h = rw h refl

  mutual
    unfolding dual evaluate

    evaluate-dual : (n : AstNode F) → evaluate fm ctx (dual fm n) ≡ negated (evaluate fm ctx n)
    evaluate-dual (node comb children name op v) = elim (Bool-cases (is_leaf comb children)) [
      | inl h ↦
          ap (evaluate fm ctx) (dual-leaf comb children name op v h)
          ∙ evaluate-wrapped (node comb children name op v)
      | inr h ↦
          ap (evaluate fm ctx) (dual-composite comb children name op v h)
          ∙ evaluate-swapped comb (combinator_of (to_upper fm.upper comb)) (dual_all fm children)
              children (node comb children name op v) (evaluate_all-dual children)
              (evaluate-composite comb children name op v h)
    ]

    evaluate_all-dual :
        (ns : AstNodes F)
        → evaluate_all fm ctx (dual_all fm ns) ≡ map negated (evaluate_all fm ctx ns)
    evaluate_all-dual nil = refl
    evaluate_all-dual (cons n ns) = cc (evaluate-dual n, evaluate_all-dual ns)

  -- De Morgan's law for conditions, errors and the order of evaluation included: the dual of a
  -- condition, in which AND and OR are exchanged, NOT is taken away from its condition, and every
  -- leaf is put under NOT, answers the contrary of the condition and fails with the error with
  -- which the condition fails. It is assumed that AND, OR and NOT are their own upper case.
  pub de_morgan : (n : AstNode F) → evaluate fm ctx (dual fm n) ≡ negated (evaluate fm ctx n)
  de_morgan n = evaluate-dual n
