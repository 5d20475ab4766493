-- ===== src/Rules/Service/Steps.antt =====
-- Requests to service.go in any interleaving: a method reads the rule, makes its tests, and writes
-- later. A request that never writes is one that stays.
use ropus.Common.{ℕ, ◌≡◌, String, Bool, none, some, List, [], ◌∷◌, ◌++◌}
use ropus.Rules.Service.{
  RuleStatus, Rule, CreateRuleInput, UpdateRuleInput, Table, update_row, create_rule, get_rule,
  new_text, edited, check_transition, transitioned,
}

-- A request between its read and its write.
pub data Request : Type 0 where
  editing : String → String → UpdateRuleInput → String → Rule → Request
  moving : String → String → RuleStatus → String → Rule → Request

pub record State : Type 0 where
  pub table : Table
  pub requests : List Request

unfoldable pub write : ℕ → Request → Table → Table
unfolding update_row edited transitioned
write now (editing t k input dsl current) table =
    update_row t k (edited now input current dsl) table
write now (moving t k target actor current) table =
    update_row t k (transitioned now target actor current) table

unfoldable pub start : State
start = record { table = λ t k. none; requests = [] }

module _ (parses : String → Bool) where
  pub data Step (s : State) : State → Type 0 where
    creates :
        (now : ℕ) (id : String) (input : CreateRuleInput)
        → Step s (record s { table = (create_rule parses now id input s.table).1 })
    reads_to_edit :
        (t k : String) (input : UpdateRuleInput) (dsl : String) (current : Rule)
        → get_rule t k s.table ≡ some current
        → new_text parses input current ≡ some dsl
        → Step s (record s { requests = editing t k input dsl current ∷ s.requests })
    reads_to_move :
        (t k : String) (target : RuleStatus) (actor : String) (current : Rule)
        → get_rule t k s.table ≡ some current
        → check_transition target actor current ≡ none
        → Step s (record s { requests = moving t k target actor current ∷ s.requests })
    writes :
        (now : ℕ) (before : List Request) (q : Request) (after : List Request)
        → s.requests ≡ before ++ (q ∷ after)
        → Step s (record { table = write now q s.table; requests = before ++ after })

  pub data Steps (s : State) : State → Type 0 where
    done : Steps s s
    then_step : {s1 s2 : State} → Steps s s1 → Step s1 s2 → Steps s s2
