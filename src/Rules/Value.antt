-- ===== src/Rules/Value.antt =====
-- The values of ast.go: what `encoding/json` makes of a text, numbers as float64. The conversion of
-- text to numbers and the printing of values are parameters.
use Prim.Native.Char.{Char}
use ropus.Common.{
  String, str_eq, starts_with, Bool, true, false, not, Option, none, some, if◌then◌else◌, ◌||◌,
}
use ropus.Rules.Text.{contains_text, ends_with, to_upper, trim_left, trim_right}

mutual
  pub data Value (F : Type 0) : Type 0 where
    null : Value F
    number : F → Value F
    str : String → Value F
    flag : Bool → Value F
    array : Values F → Value F
    object : Fields F → Value F

  pub data Values (F : Type 0) : Type 0 where
    nil : Values F
    cons : Value F → Values F → Values F

  pub data Fields (F : Type 0) : Type 0 where
    empty : Fields F
    field : String → Value F → Fields F → Fields F

-- `parse_float` is `strconv.ParseFloat`, and `print` is `fmt.Sprintf("%v", …)`.
pub record Formats : Type 1 where
  pub F : Type 0
  pub is_gt : F → F → Bool
  pub is_ge : F → F → Bool
  pub is_same : F → F → Bool
  pub parse_float : String → Option F
  pub print : Value F → String
  pub upper : Char → Char
  pub is_space : Char → Bool

-- `toFloat64`
unfoldable pub to_float64 : (fm : Formats) → Value fm.F → Option fm.F
to_float64 fm (number x) = some x
to_float64 fm (str s) = fm.parse_float s
to_float64 fm _ = none

unfoldable pub lookup_field : {F : Type 0} → String → Fields F → Option (Value F)
lookup_field k empty = none
lookup_field k (field j v fs) = if str_eq j k then some v else lookup_field k fs

-- Whether both are numbers that pass the test; otherwise the given answer.
abbrev pub both : {F : Type 0} {A : Type 0} → (F → F → A) → A → Option F → Option F → A
both test d (some x) (some y) = test x y
both test d _ _ = d

-- `areEqual`
unfoldable pub are_equal : (fm : Formats) → Value fm.F → Value fm.F → Bool
unfolding to_float64
are_equal fm null null = true
are_equal fm null b = false
are_equal fm a null = false
are_equal fm a b =
    both fm.is_same (str_eq (fm.print a) (fm.print b)) (to_float64 fm a) (to_float64 fm b)

unfoldable pub any_equal : (fm : Formats) → Value fm.F → Values fm.F → Bool
unfolding are_equal
any_equal fm a nil = false
any_equal fm a (cons b bs) = are_equal fm a b || any_equal fm a bs

-- `isContainedIn`
unfoldable pub is_contained_in : (fm : Formats) → Value fm.F → Value fm.F → Bool
unfolding any_equal are_equal
is_contained_in fm a null = false
is_contained_in fm a (array bs) = any_equal fm a bs
is_contained_in fm a b = are_equal fm a b

unfoldable pub any_item : (fm : Formats) → Values fm.F → Value fm.F → Bool
unfolding are_equal
any_item fm nil b = false
any_item fm (cons a as') b = are_equal fm a b || any_item fm as' b

-- `containsSubstringOrItem`
unfoldable pub contains_substring_or_item : (fm : Formats) → Value fm.F → Value fm.F → Bool
unfolding any_item
contains_substring_or_item fm a null = false
contains_substring_or_item fm (str s) b = contains_text s (fm.print b)
contains_substring_or_item fm (array xs) b = any_item fm xs b
contains_substring_or_item fm _ b = false

pub data Operator : Type 0 where
  equals not_equals greater greater_equal less less_equal within not_within contains not_contains
        begins ends unknown :
      Operator

unfoldable pub operator_of : String → Operator
operator_of op =
    if str_eq op "==" || str_eq op "EQ" || str_eq op "EQUALS"
    then equals
    else if str_eq op "!=" || str_eq op "NEQ" || str_eq op "NOT_EQUALS"
    then not_equals
    else if str_eq op ">" || str_eq op "GT"
    then greater
    else if str_eq op ">=" || str_eq op "GTE"
    then greater_equal
    else if str_eq op "<" || str_eq op "LT"
    then less
    else if str_eq op "<=" || str_eq op "LTE"
    then less_equal
    else if str_eq op "IN"
    then within
    else if str_eq op "NOT_IN"
    then not_within
    else if str_eq op "CONTAINS"
    then contains
    else if str_eq op "NOT_CONTAINS"
    then not_contains
    else if str_eq op "STARTS_WITH"
    then begins
    else if str_eq op "ENDS_WITH"
    then ends
    else unknown

pub data EvalError : Type 0 where
  unsupported_combinator unsupported_operator : String → EvalError
  missing_field : EvalError
  not_numeric : Operator → EvalError

pub data Outcome : Type 0 where
  answers : Bool → Outcome
  fails : EvalError → Outcome

-- `evaluateOperator`
unfoldable pub apply_operator :
    (fm : Formats) → String → Operator → Value fm.F → Value fm.F → Outcome
unfolding are_equal is_contained_in contains_substring_or_item to_float64 ends_with
apply_operator fm op equals a b = answers (are_equal fm a b)
apply_operator fm op not_equals a b = answers (not (are_equal fm a b))
apply_operator fm op greater a b =
    both (λ x y. answers (fm.is_gt x y)) (fails (not_numeric greater)) (to_float64 fm a)
      (to_float64 fm b)
apply_operator fm op greater_equal a b =
    both (λ x y. answers (fm.is_ge x y)) (fails (not_numeric greater_equal)) (to_float64 fm a)
      (to_float64 fm b)
apply_operator fm op less a b =
    both (λ x y. answers (fm.is_gt y x)) (fails (not_numeric less)) (to_float64 fm a)
      (to_float64 fm b)
apply_operator fm op less_equal a b =
    both (λ x y. answers (fm.is_ge y x)) (fails (not_numeric less_equal)) (to_float64 fm a)
      (to_float64 fm b)
apply_operator fm op within a b = answers (is_contained_in fm a b)
apply_operator fm op not_within a b = answers (not (is_contained_in fm a b))
apply_operator fm op contains a b = answers (contains_substring_or_item fm a b)
apply_operator fm op not_contains a b = answers (not (contains_substring_or_item fm a b))
apply_operator fm op begins a b = answers (starts_with (fm.print a) (fm.print b))
apply_operator fm op ends a b = answers (ends_with (fm.print a) (fm.print b))
apply_operator fm op unknown a b = fails (unsupported_operator op)

unfoldable pub evaluate_operator : (fm : Formats) → Value fm.F → String → Value fm.F → Outcome
unfolding apply_operator operator_of to_upper trim_left trim_right
evaluate_operator fm a op b =
    apply_operator fm op
      (operator_of (to_upper fm.upper (trim_left fm.is_space (trim_right fm.is_space op)))) a b
