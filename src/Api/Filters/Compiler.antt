-- ===== src/Api/Filters/Compiler.antt =====
-- api/src/filters/lib/filter-compiler.ts: filters as the SET clause of an UPDATE statement. The
-- clause is a tree here (Expression, Case), and its text is what the child Print makes of the tree. A
-- function that throws returns `none`; the md5 hash of computeFilterVersion is a parameter.
pub mod Sql
pub mod Escaping
pub mod Print
pub mod Errors
pub mod Cases
pub mod Conditions
pub mod Descending
pub mod Candidates
pub mod Refinement
mod Tests
use staminads.Common.{
  ℕ, String, Bool, true, false, not, ◌||◌, Option, none, some, List, [], ◌∷◌, ◌++◌, map, filter,
  str_eq, if◌then◌else◌, ◌>>=◌,
}
use staminads.Common.Dict.{Dict, get, put}
use staminads.Api.Filters.Evaluator.{
  FilterOperator, equals, not_equals, contains, not_contains, is_empty, is_not_empty, regex,
  FilterAction, set_value, unset_value, set_default_value, FilterCondition, FilterOperation,
  FilterDefinition, or_empty, is_value, sort_by_priority,
}
use staminads.Api.Filters.Compiler.Sql.{
  Expression, equals_text, differs_text, has_position, no_position, is_null, is_not_null, is_match,
  is_number, is_not_number, always, never, both, either, group, Term, literal, digit, column, Case,
}

abbrev pub custom_dimensions : List String
custom_dimensions =
    "channel" ∷ "channel_group" ∷ "stm_1" ∷ "stm_2" ∷ "stm_3" ∷ "stm_4" ∷ "stm_5" ∷ "stm_6"
    ∷ "stm_7" ∷ "stm_8" ∷ "stm_9" ∷ "stm_10" ∷ []

abbrev pub writable_dimensions : List String
writable_dimensions =
    custom_dimensions
    ++ "utm_source" ∷ "utm_medium" ∷ "utm_campaign" ∷ "utm_term" ∷ "utm_content" ∷ "referrer_domain"
      ∷ "is_direct" ∷ []

abbrev pub source_fields : List String
source_fields =
    "utm_source" ∷ "utm_medium" ∷ "utm_campaign" ∷ "utm_term" ∷ "utm_content" ∷ "utm_id"
    ∷ "utm_id_from" ∷ "referrer" ∷ "referrer_domain" ∷ "referrer_path" ∷ "is_direct"
    ∷ "landing_page" ∷ "landing_domain" ∷ "landing_path" ∷ "path" ∷ "device" ∷ "browser"
    ∷ "browser_type" ∷ "os" ∷ "user_agent" ∷ "connection_type" ∷ "language" ∷ "timezone" ∷ []

-- `names.has(name)`, `names.includes(name)`
abbrev pub is_in : List String → String → Bool
is_in [] name = false
is_in (other ∷ rest) name = str_eq other name || is_in rest name

-- The two guards, as whether they let the name pass.
unfoldable pub validate_source_field : String → Bool
validate_source_field field = is_in source_fields field

unfoldable pub validate_dimension : String → Bool
validate_dimension dimension = is_in writable_dimensions dimension

-- `value === 'true' || value === '1'`
abbrev pub is_true_value : Option String → Bool
is_true_value value = is_value "true" value || is_value "1" value

abbrev pub bit : Bool → ℕ
bit b = if b then 1 else 0

abbrev pub compile_direct : FilterOperator → Option String → Expression
compile_direct equals value = is_number "is_direct" (bit (is_true_value value))
compile_direct not_equals value = is_not_number "is_direct" (bit (is_true_value value))
compile_direct contains value = never
compile_direct not_contains value = never
compile_direct is_empty value = is_number "is_direct" 0
compile_direct is_not_empty value = is_number "is_direct" 1
compile_direct regex value = never

abbrev pub compile_text : String → FilterOperator → String → Expression
compile_text field equals value = group (both (differs_text field "") (equals_text field value))
compile_text field not_equals value =
    group (both (differs_text field "") (differs_text field value))
compile_text field contains value = group (both (differs_text field "") (has_position field value))
compile_text field not_contains value =
    group (both (differs_text field "") (no_position field value))
compile_text field is_empty value = group (either (equals_text field "") (is_null field))
compile_text field is_not_empty value = group (both (differs_text field "") (is_not_null field))
compile_text field regex value = group (both (differs_text field "") (is_match field value))

-- The code after the guard.
abbrev pub condition_sql : FilterCondition → Expression
condition_sql c =
    if str_eq c.field "is_direct"
    then compile_direct c.operator c.value
    else compile_text c.field c.operator (or_empty c.value)

unfoldable pub compile_condition : FilterCondition → Option Expression
unfolding validate_source_field
compile_condition c = if validate_source_field c.field then some (condition_sql c) else none

-- `.map(compileCondition).join(' AND ')`, from the first condition on.
abbrev pub join_conditions : FilterCondition → List FilterCondition → Option Expression
join_conditions c [] = compile_condition c
join_conditions c (d ∷ rest) = do
  first ← compile_condition c
  others ← join_conditions d rest
  some (both first others)

unfoldable pub compile_conditions : List FilterCondition → Option Expression
compile_conditions [] = some always
compile_conditions (c ∷ rest) = join_conditions c rest

pub record CaseBranch : Type 0 where
  pub condition : Expression
  pub action : FilterAction
  pub value : Option String

-- `'${escapeSQL(value!)}'`, which throws on an operation without a value.
abbrev pub quoted : Option String → Option Term
quoted none = none
quoted (some v) = some (literal v)

abbrev pub then_value : FilterAction → Option String → Option Term
then_value set_value value = quoted value
then_value unset_value value = some (literal "")
then_value set_default_value value = quoted value

abbrev pub boolean_value : FilterAction → Option String → Option Term
boolean_value set_value value = some (digit (bit (is_true_value value)))
boolean_value unset_value value = some (digit 0)
boolean_value set_default_value value = some (digit (bit (is_true_value value)))

-- The condition of a branch, with what a default asks of the column besides.
abbrev pub guarded : Expression → FilterAction → Expression → Expression
guarded condition set_value check = condition
guarded condition unset_value check = condition
guarded condition set_default_value check = both condition check

abbrev pub WhenClause : Type 0
WhenClause = Expression × Term

abbrev pub when_clauses : List CaseBranch → Option (List WhenClause)
when_clauses [] = some []
when_clauses (b ∷ rest) = do
  value ← then_value b.action b.value
  others ← when_clauses rest
  some ((b.condition, value) ∷ others)

abbrev pub guarded_clauses :
    Expression
    → (FilterAction → Option String → Option Term)
    → List CaseBranch
    → Option (List WhenClause)
guarded_clauses check value_of [] = some []
guarded_clauses check value_of (b ∷ rest) = do
  value ← value_of b.action b.value
  others ← guarded_clauses check value_of rest
  some ((guarded b.condition b.action check, value) ∷ others)

unfoldable pub build_case_expression : List CaseBranch → Option Case
build_case_expression branches = do
  clauses ← when_clauses branches
  some (record { branches = clauses; otherwise = literal "" })

unfoldable pub build_standard_field_case_expression : String → List CaseBranch → Option Case
build_standard_field_case_expression dimension branches = do
  clauses ←
      guarded_clauses (group (either (equals_text dimension "") (is_null dimension))) then_value
        branches
  some (record { branches = clauses; otherwise = column dimension })

unfoldable pub build_boolean_case_expression : List CaseBranch → Option Case
build_boolean_case_expression branches = do
  clauses ← guarded_clauses (is_number "is_direct" 0) boolean_value branches
  some (record { branches = clauses; otherwise = column "is_direct" })

abbrev pub branches_of : Option (List CaseBranch) → List CaseBranch
branches_of none = []
branches_of (some branches) = branches

abbrev pub DimensionBranches : Type 0
DimensionBranches = Dict (List CaseBranch)

-- `dimensionBranches.get(op.dimension) ?? []`, then `push` and `set`.
abbrev pub push_branch : DimensionBranches → Expression → FilterOperation → DimensionBranches
push_branch table condition op = put table op.dimension (
    branches_of (get table op.dimension)
    ++ record { condition = condition; action = op.action; value = op.value } ∷ [])

unfoldable pub group_operations :
    DimensionBranches → Expression → List FilterOperation → Option DimensionBranches
unfolding validate_dimension
group_operations table condition [] = some table
group_operations table condition (op ∷ rest) =
    let others = group_operations (push_branch table condition op) condition rest in
    if validate_dimension op.dimension then others else none

unfoldable pub group_filters : DimensionBranches → List FilterDefinition → Option DimensionBranches
group_filters table [] = some table
group_filters table (f ∷ rest) = do
  condition ← compile_conditions f.conditions
  grouped ← group_operations table condition f.operations
  group_filters grouped rest

abbrev pub SetClauses : Type 0
SetClauses = Dict Case

-- One custom dimension: a clause if it has branches.
abbrev pub custom_clause : String → List CaseBranch → Option SetClauses
custom_clause dim [] = some []
custom_clause dim (b ∷ rest) = do
  expression ← build_case_expression (b ∷ rest)
  some ((dim, expression) ∷ [])

abbrev pub custom_clauses : DimensionBranches → List String → Option SetClauses
custom_clauses table [] = some []
custom_clauses table (dim ∷ rest) = do
  clause ← custom_clause dim (branches_of (get table dim))
  others ← custom_clauses table rest
  some (clause ++ others)

abbrev pub standard_clause : String → List CaseBranch → Option Case
standard_clause dim branches =
    if str_eq dim "is_direct"
    then build_boolean_case_expression branches
    else build_standard_field_case_expression dim branches

-- The loop over the entries of `dimensionBranches`.
abbrev pub standard_clauses : DimensionBranches → Option SetClauses
standard_clauses [] = some []
standard_clauses ((dim, branches) ∷ rest) =
    let others = standard_clauses rest in
    if is_in custom_dimensions dim then others else do
      expression ← standard_clause dim branches
      tail ← others
      some ((dim, expression) ∷ tail)

pub record CompiledFilters : Type 0 where
  pub set_clauses : SetClauses
  pub filter_version : String

abbrev pub sorted_enabled : List FilterDefinition → List FilterDefinition
sorted_enabled filters = sort_by_priority (filter (λ f. f.enabled) filters)

unfoldable pub compile_filters_to_sql :
    (List FilterDefinition → String) → List FilterDefinition → Option CompiledFilters
compile_filters_to_sql compute_filter_version filters = do
  table ← group_filters [] (sorted_enabled filters)
  custom ← custom_clauses table custom_dimensions
  standard ← standard_clauses table
  some (record {
    set_clauses = custom ++ standard;
    filter_version = compute_filter_version (sorted_enabled filters);
  })
