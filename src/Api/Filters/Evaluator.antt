-- ===== src/Api/Filters/Evaluator.antt =====
-- api/src/filters/lib/filter-evaluator.ts, with the types of api/src/filters/entities/filter.entity.ts.
-- `new RegExp(pattern).test(text)` is a parameter: `none` where the constructor throws.
pub mod Winner
pub mod Order
mod Tests
use Prim.Native.String
use mathlib.Core.List.{foldl}
use text.Mathlib.Text.{starts_with}
use staminads.Common.{
  ℕ, String, Bool, true, false, not, ◌&&◌, ◌||◌, Option, none, some, List, [], ◌∷◌, ltb, leb, all,
  filter, str_eq, if◌then◌else◌,
}
use staminads.Common.Dict.{Dict, get, put, has}

pub data FilterOperator : Type 0 where
  equals not_equals contains not_contains is_empty is_not_empty regex : FilterOperator

pub data FilterAction : Type 0 where
  set_value unset_value set_default_value : FilterAction

pub record FilterCondition : Type 0 where
  pub field : String
  pub operator : FilterOperator
  pub value : Option String

pub record FilterOperation : Type 0 where
  pub dimension : String
  pub action : FilterAction
  pub value : Option String

pub record FilterDefinition : Type 0 where
  pub id : String
  pub name : String
  pub priority : ℕ
  pub order : ℕ
  pub tags : List String
  pub conditions : List FilterCondition
  pub operations : List FilterOperation
  pub enabled : Bool
  pub version : String
  pub created_at : String
  pub updated_at : String

-- A property of a result: a text, null, or undefined (an operation without a value).
pub data Value : Type 0 where
  str : String → Value
  null undefined : Value

-- The fields of an event; a field that is missing, undefined or null is `none`.
abbrev pub FieldValues : Type 0
FieldValues = Dict (Option String)

abbrev pub field_value : FieldValues → String → Option String
field_value fields name = elim (get fields name) [ none ↦ none | some v ↦ v ]

-- `text.includes(part)`
unfoldable pub includes : String → String → Bool
includes String.[] part = str_eq part ""
includes (String.◌∷◌ c rest) part = starts_with (String.◌∷◌ c rest) part || includes rest part

-- `value ?? ''`
abbrev pub or_empty : Option String → String
or_empty none = ""
or_empty (some v) = v

abbrev pub is_value : String → Option String → Bool
is_value s none = false
is_value s (some v) = str_eq s v

abbrev pub is_empty_operator : FilterOperator → Bool
is_empty_operator is_empty = true
is_empty_operator _ = false

abbrev pub or_false : Option Bool → Bool
or_false none = false
or_false (some b) = b

module _ (regex_test : String → String → Option Bool) where
  -- The `switch`, on a text that is not empty.
  unfoldable pub test_operator : FilterOperator → Option String → String → Bool
  unfolding includes
  test_operator equals value s = is_value s value
  test_operator not_equals value s = not (is_value s value)
  test_operator contains value s = includes s (or_empty value)
  test_operator not_contains value s = not (includes s (or_empty value))
  test_operator is_empty value s = false
  test_operator is_not_empty value s = true
  test_operator regex value s = or_false (regex_test (or_empty value) s)

  unfoldable pub evaluate_condition : FilterCondition → FieldValues → Bool
  unfolding test_operator
  evaluate_condition c fields = elim (field_value fields c.field) [
    | none ↦ is_empty_operator c.operator
    | some s ↦
        if str_eq s "" then is_empty_operator c.operator else test_operator c.operator c.value s
  ]

  unfoldable pub evaluate_conditions : List FilterCondition → FieldValues → Bool
  evaluate_conditions [] fields = true
  evaluate_conditions (c ∷ rest) fields = all (λ d. evaluate_condition d fields) (c ∷ rest)

-- `.sort((a, b) => b.priority - a.priority)`: highest first, and stable.
unfoldable pub insert_by_priority : FilterDefinition → List FilterDefinition → List FilterDefinition
insert_by_priority f [] = f ∷ []
insert_by_priority f (g ∷ rest) =
    if leb g.priority f.priority then f ∷ g ∷ rest else g ∷ insert_by_priority f rest

unfoldable pub sort_by_priority : List FilterDefinition → List FilterDefinition
sort_by_priority [] = []
sort_by_priority (f ∷ rest) = insert_by_priority f (sort_by_priority rest)

-- The two accumulators of `evaluateFilters`.
pub record Progress : Type 0 where
  pub result : Dict Value
  pub dimension_priorities : Dict ℕ

-- `priority < (dimensionPriorities[dimension] ?? -1)`
abbrev pub is_outranked : ℕ → Option ℕ → Bool
is_outranked priority none = false
is_outranked priority (some current) = ltb priority current

-- `op.value!`
abbrev pub given_value : Option String → Value
given_value none = undefined
given_value (some v) = str v

abbrev pub write : ℕ → String → Value → Progress → Progress
write priority dimension v acc =
    if is_outranked priority (get acc.dimension_priorities dimension) then acc else record {
      result = put acc.result dimension v;
      dimension_priorities = put acc.dimension_priorities dimension priority;
    }

-- `!(dimension in result) || result[dimension] === null`
abbrev pub is_unset : Option Value → Bool
is_unset none = true
is_unset (some null) = true
is_unset (some _) = false

abbrev pub apply_action : FilterAction → ℕ → String → Option String → Progress → Progress
apply_action set_value priority dimension value acc =
    write priority dimension (given_value value) acc
apply_action unset_value priority dimension value acc = write priority dimension null acc
apply_action set_default_value priority dimension value acc =
    if is_unset (get acc.result dimension)
    then record acc { result = put acc.result dimension (given_value value) }
    else acc

unfoldable pub apply_operation : ℕ → Progress → FilterOperation → Progress
apply_operation priority acc op = apply_action op.action priority op.dimension op.value acc

unfoldable pub apply_operations : ℕ → Progress → List FilterOperation → Progress
apply_operations priority acc [] = acc
apply_operations priority acc (op ∷ rest) =
    apply_operations priority (apply_operation priority acc op) rest

module _ (regex_test : String → String → Option Bool) (fields : FieldValues) where
  -- The loop over the sorted filters.
  unfoldable pub run_filters : Progress → List FilterDefinition → Progress
  run_filters acc [] = acc
  run_filters acc (f ∷ rest) =
      run_filters
        (if evaluate_conditions regex_test f.conditions fields
          then apply_operations f.priority acc f.operations
          else acc)
        rest

  unfoldable pub evaluate_filters : List FilterDefinition → Dict Value
  evaluate_filters filters =
      (run_filters (record { result = []; dimension_priorities = [] })
        (sort_by_priority (filter (λ f. f.enabled) filters))).result
