-- ===== src/Rules/Service/Checked.antt =====
-- Rows of the table of service.go whose approval is in order, and the writes that keep them so.
use ropus.Common.{
  ℕ, ◌≡◌, ◌≢◌, ◌∙◌, ◌⊎◌, sym, ap, subst, refl, String, eq_iff, Bool, true, false, Option, none,
  some, arith, Option-cases, Bool-cases, inl, inr, if◌then◌else◌,
}
use ropus.Rules.Service.{
  RuleStatus, draft, pending_approval, shadow, active, archived, Rule, CreateRuleInput, Table,
  is_row, map_row, update_row, new_rule, insert_row, create_rule, new_status, approval,
  check_transition, transitioned,
}
use ropus.Rules.Service.Steps.{Request, editing, moving}

abbrev pub is_in_force : RuleStatus → Bool
is_in_force active = true
is_in_force shadow = true
is_in_force _ = false

-- A rule in force names an approver, who is not its creator.
unfoldable pub IsChecked : Rule → Type 0
IsChecked r =
    is_in_force r.status ≡ true
    → (actor : String) × (r.approved_by ≡ some actor) × (actor ≢ "") × (actor ≢ r.created_by)

unfoldable pub IsGood : Rule → Type 0
IsGood r = (r.created_by ≢ "") × IsChecked r

abbrev pub AllGood : Table → Type 0
AllGood table = (t k : String) (r : Rule) → table t k ≡ some r → IsGood r

abbrev Matches : Table → String → String → Rule → Type 0
Matches table t k current = (r : Rule) × (table t k ≡ some r) × (r.created_by ≡ current.created_by)

-- A request was read from a row of the same creator, and its tests were passed.
unfoldable pub IsFounded : Table → Request → Type 0
IsFounded table (editing t k input dsl current) = Matches table t k current
IsFounded table (moving t k target actor current) =
    Matches table t k current × (check_transition target actor current ≡ none)

-- A write that keeps the creators and the rows.
abbrev pub KeepsCreators : Table → Table → Type 0
KeepsCreators table table' =
    (t k : String) (r : Rule)
    → table t k ≡ some r
    → (r' : Rule) × (table' t k ≡ some r') × (r'.created_by ≡ r.created_by)

pub IsFounded-kept :
    (table table' : Table) (q : Request)
    → KeepsCreators table table'
    → IsFounded table q
    → IsFounded table' q
unfolding IsFounded
IsFounded-kept table table' (editing t k input dsl current) h (r, e, c) =
    let (r', e', c') = h t k r e in (r', e', c' ∙ c)
IsFounded-kept table table' (moving t k target actor current) h ((r, e, c), p) =
    let (r', e', c') = h t k r e in ((r', e', c' ∙ c), p)

approval_lem :
    (actor : String) (current r : Rule)
    → r.created_by ≢ ""
    → r.created_by ≡ current.created_by
    → approval actor current ≡ none
    → (actor ≢ "") × (actor ≢ r.created_by)
unfolding approval
approval_lem actor current r n e p = (
  ground (arith, eq_iff actor ""),
  ground (arith, eq_iff actor "", eq_iff actor current.created_by, eq_iff current.created_by ""),
)

pub new_status_lem : (s : RuleStatus) → new_status s ≡ draft
new_status_lem draft = refl
new_status_lem pending_approval = refl
new_status_lem shadow = refl
new_status_lem active = refl
new_status_lem archived = refl

pub approved-IsChecked :
    (target : RuleStatus) (now : ℕ) (actor : String) (current r : Rule)
    → r.created_by ≢ ""
    → r.created_by ≡ current.created_by
    → check_transition target actor current ≡ none
    → IsChecked (transitioned now target actor current r)
unfolding IsChecked transitioned check_transition approval
approved-IsChecked active now actor current r n e p = λ _.
    let (some_actor, other) = approval_lem actor current r n e p in (actor, refl, some_actor, other)
approved-IsChecked shadow now actor current r n e p = λ _.
    let (some_actor, other) = approval_lem actor current r n e p in (actor, refl, some_actor, other)
approved-IsChecked draft now actor current r n e p = λ h. ground arith
approved-IsChecked pending_approval now actor current r n e p = λ h. ground arith
approved-IsChecked archived now actor current r n e p = λ h. ground arith

row_same : (t k t' k' : String) → is_row t k t' k' ≡ true → (t ≡ t') × (k ≡ k')
row_same t k t' k' h = (ground (arith, eq_iff t t'), ground (arith, eq_iff k k'))

map_row_inv :
    (f : Rule → Rule) (o : Option Rule) (r : Rule)
    → map_row f o ≡ some r
    → (r0 : Rule) × (o ≡ some r0) × (f r0 ≡ r)
map_row_inv f none r e = ground arith
map_row_inv f (some r0) r e = (r0, refl, ap (elim [ none ↦ f r0 | some x ↦ x ]) e)

pub update_row-KeepsCreators :
    (t k : String) (f : Rule → Rule) (table : Table)
    → ((r : Rule) → (f r).created_by ≡ r.created_by)
    → KeepsCreators table (update_row t k f table)
unfolding update_row
update_row-KeepsCreators t k f table same t' k' r e = elim (Bool-cases (is_row t k t' k')) [
  | inl h ↦ (f r, rw (h, e) refl, same r)
  | inr h ↦ (r, rw (h) e, refl)
]

pub update_row-AllGood :
    (t k : String) (f : Rule → Rule) (table : Table)
    → ((r : Rule) → table t k ≡ some r → IsGood (f r))
    → AllGood table
    → AllGood (update_row t k f table)
unfolding update_row
update_row-AllGood t k f table good h t' k' r e = elim (Bool-cases (is_row t k t' k')) [
  | inl same ↦
      let (p, q) = row_same t k t' k' same in
      let (r0, e0, fr) = map_row_inv f (table t' k') r (rw same at e) in
      subst IsGood fr (good r0 (rw (p, q) e0))
  | inr other ↦ h t' k' r (rw other at e)
]

module _ (parses : String → Bool) where
  pub create_cases :
      (now : ℕ) (id : String) (input : CreateRuleInput) (table : Table)
      → let r = new_rule now id input in
        ((create_rule parses now id input table).1 ≡ table)
        ⊎ ((table r.tenant_id r.id ≡ none)
            × ((create_rule parses now id input table).1
                ≡ (λ t k. if is_row r.tenant_id r.id t k then some r else table t k)))
  unfolding create_rule insert_row
  create_cases now id input table = elim (Bool-cases (parses input.dsl_ast)) [
    | inr bad ↦ inl (rw bad refl)
    | inl fine ↦
        elim (Option-cases (table (new_rule now id input).tenant_id (new_rule now id input).id)) [
          | inl free ↦ inr (free, rw (fine, free) refl)
          | inr (r, taken) ↦ inl (rw (fine, taken) refl)
        ]
  ]

pub new_rule-IsGood :
    (now : ℕ) (id : String) (input : CreateRuleInput) → IsGood (new_rule now id input)
unfolding new_rule IsGood IsChecked
new_rule-IsGood now id input =
    (ground (arith, eq_iff input.created_by "", eq_iff "system" ""), λ h. ground arith)

pub placed-AllGood :
    (new : Rule) (table : Table)
    → IsGood new
    → AllGood table
    → AllGood (λ t k. if is_row new.tenant_id new.id t k then some new else table t k)
placed-AllGood new table good h t k r e = elim (Bool-cases (is_row new.tenant_id new.id t k)) [
  | inl same ↦
      let e' : ◌≡◌ {A = Option Rule} (some new) (some r) = rw same at e in
      subst IsGood (ap (elim [ none ↦ new | some x ↦ x ]) e') good
  | inr other ↦ h t k r (rw other at e)
]

pub placed-KeepsCreators :
    (new : Rule) (table : Table)
    → table new.tenant_id new.id ≡ none
    → KeepsCreators table (λ t k. if is_row new.tenant_id new.id t k then some new else table t k)
placed-KeepsCreators new table free t k r e = elim (Bool-cases (is_row new.tenant_id new.id t k)) [
  | inl same ↦
      let (p, q) = row_same new.tenant_id new.id t k same in
      let no : ◌≡◌ {A = Option Rule} none (some r) = sym (rw (p, q) at free) ∙ e in ground arith
  | inr other ↦ (r, rw other e, refl)
]

pub row_creator :
    (table : Table) (t k : String) (current r : Rule)
    → Matches table t k current
    → table t k ≡ some r
    → r.created_by ≡ current.created_by
row_creator table t k current r (r0, e0, c) e =
    let both : ◌≡◌ {A = Option Rule} (some r) (some r0) = sym e ∙ e0 in
    ap (elim [ none ↦ r.created_by | some x ↦ x.created_by ]) both ∙ c
