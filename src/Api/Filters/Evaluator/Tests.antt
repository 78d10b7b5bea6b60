-- ===== src/Api/Filters/Evaluator/Tests.antt =====
-- Runs of evaluateFilters (api/src/filters/lib/filter-evaluator.ts), and its theorems at them.
use staminads.Common.{
  ℕ, String, ◌≡◌, refl, Bool, true, false, Option, none, some, List, [], ◌∷◌, arith, eq_iff,
}
use staminads.Common.Dict.{get, put}
use staminads.Api.Filters.Evaluator.{
  FilterOperator, FilterAction, set_value, unset_value, set_default_value, equals, contains,
  is_empty, regex, FilterCondition, FilterOperation, FilterDefinition, str, null, FieldValues,
  includes, test_operator, evaluate_condition, evaluate_conditions, insert_by_priority,
  sort_by_priority, apply_operation, apply_operations, run_filters, evaluate_filters,
}
use staminads.Api.Filters.Evaluator.Winner.{operations_candidate, NoDefaults}
use staminads.Api.Filters.Evaluator.Order.{winner, get-evaluate_filters}

evaluator : Unit {0}
unfolding evaluate_filters run_filters apply_operations apply_operation sort_by_priority
    insert_by_priority evaluate_conditions evaluate_condition test_operator includes get put winner
    operations_candidate
evaluator = tt

-- No pattern compiles.
abbrev no_regex : String → String → Option Bool
no_regex pattern s = none

abbrev rule : String → ℕ → List FilterCondition → List FilterOperation → FilterDefinition
rule id priority conditions operations = record {
  id = id;
  name = id;
  priority = priority;
  order = 0;
  tags = [];
  conditions = conditions;
  operations = operations;
  enabled = true;
  version = "";
  created_at = "";
  updated_at = "";
}

abbrev condition : String → FilterOperator → String → FilterCondition
condition field operator value = record { field = field; operator = operator; value = some value }

abbrev operation : String → FilterAction → Option String → FilterOperation
operation dimension action value = record { dimension = dimension; action = action; value = value }

abbrev google : FilterDefinition
google =
    rule "google" 500 (condition "referrer_domain" contains "google." ∷ [])
      (operation "channel" set_value (some "organic") ∷ [])

abbrev paid : FilterDefinition
paid =
    rule "paid" 900 (condition "utm_medium" equals "cpc" ∷ [])
      (operation "channel" set_value (some "paid") ∷ operation "stm_1" unset_value none ∷ [])

abbrev late : FilterDefinition
late = rule "late" 900 [] (operation "channel" set_value (some "late") ∷ [])

abbrev fallback : FilterDefinition
fallback = rule "fallback" 1 [] (operation "stm_1" set_default_value (some "other") ∷ [])

abbrev visit : FieldValues
visit =
    ("referrer_domain", some "www.google.com") ∷ ("utm_medium", some "cpc") ∷ ("path", none) ∷ []

tests :
    (evaluate_filters no_regex visit (google ∷ paid ∷ fallback ∷ [])
      ≡ ("channel", str "paid") ∷ ("stm_1", str "other") ∷ [])
    × (evaluate_filters no_regex visit (paid ∷ google ∷ late ∷ [])
        ≡ ("channel", str "late") ∷ ("stm_1", null) ∷ [])
    × (evaluate_condition no_regex (condition "path" is_empty "") visit ≡ true)
    × (evaluate_condition no_regex (condition "utm_medium" regex "(") visit ≡ false)
unfolding evaluator
tests = (refl, refl, refl, refl)

abbrev rules : List FilterDefinition
rules = late ∷ google ∷ fallback ∷ paid ∷ []

NoDefaults-channel : NoDefaults no_regex visit "channel" rules
NoDefaults-channel = (ground (arith, eq_iff "stm_1" "channel"))

get-evaluate_filters_example :
    get (evaluate_filters no_regex visit rules) "channel" ≡ some (str "paid")
unfolding evaluator
get-evaluate_filters_example =
    get-evaluate_filters no_regex visit "channel" rules NoDefaults-channel
