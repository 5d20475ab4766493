-- ===== src/Rules/Ast/Missing.antt =====
-- Conditions of ast.go on a field that the context does not have.
use ropus.Common.{◌≡◌, ◌∙◌, ◌≢◌, refl, String, eq_iff, true, false, none, some, arith}
use ropus.Rules.Text.{to_upper, trim_left, trim_right}
use ropus.Rules.Value.{
  Value, Fields, Formats, answers, operator_of, apply_operator, evaluate_operator,
}
use ropus.Rules.Ast.{is_null, resolve_field, compare, leaf}

-- The two spellings are their own upper case, and no space is at their ends.
record KeepsOperators (fm : Formats) : Type 0 where
  sign_kept : to_upper fm.upper "!=" ≡ "!="
  word_kept : to_upper fm.upper "NEQ" ≡ "NEQ"
  sign_trimmed : trim_left fm.is_space (trim_right fm.is_space "!=") ≡ "!="
  word_trimmed : trim_left fm.is_space (trim_right fm.is_space "NEQ") ≡ "NEQ"

module _ (fm : Formats) (ctx : Fields fm.F) (keeps : KeepsOperators fm) where
  open fm use {F}

  named-leaf :
      (name op : String) (v : Value F)
      → name ≢ ""
      → resolve_field ctx name ≡ none
      → leaf fm ctx name op v ≡ compare fm ctx op v none
  unfolding leaf
  named-leaf name op v h e = ground (arith, eq_iff name "")

  -- Two spellings of one operator. `!=` and `NEQ` say the same of any value that a field has; of a
  -- field that the context does not have, `!=` to a value that is not null holds and `NEQ` does not.
  -- It is assumed that both spellings are their own upper case and have no space at their ends.
  ne_spellings :
      (name : String) (v a : Value F)
      → name ≢ ""
      → is_null v ≡ false
      → resolve_field ctx name ≡ none
      → (compare fm ctx "!=" v (some a) ≡ compare fm ctx "NEQ" v (some a))
        × (leaf fm ctx name "!=" v ≡ answers true)
        × (leaf fm ctx name "NEQ" v ≡ answers false)
  unfolding compare evaluate_operator operator_of apply_operator
  ne_spellings name v a named h e = (
    rw (keeps.sign_trimmed, keeps.word_trimmed, keeps.sign_kept, keeps.word_kept) refl,
    named-leaf name "!=" v named e ∙ rw (keeps.sign_kept, h) refl,
    named-leaf name "NEQ" v named e ∙ rw (keeps.word_kept) refl,
  )
