-- ===== src/Api/Filters/Compiler/Tests.antt =====
-- Runs of the filter compiler (api/src/filters/lib/filter-compiler.spec.ts), and the theorems about
-- it at concrete filters.
use staminads.Common.{
  ℕ, String, ◌≡◌, refl, Bool, true, false, not, ◌&&◌, ◌||◌, Option, none, some, List, [], ◌∷◌, ◌==◌,
  arith, str_eq, if◌then◌else◌, inr,
}
use staminads.Common.Dict.{get, put}
use staminads.Common.Texts.{◌<>◌, decimal}
use staminads.Api.Filters.Evaluator.{
  equals, contains, set_value, FilterOperator, FilterCondition, FilterOperation, FilterDefinition,
  FieldValues, includes, evaluate_filters, insert_by_priority, sort_by_priority,
}
use staminads.Api.Filters.Compiler.Sql.{
  Expression, equals_text, differs_text, has_position, no_position, is_null, is_not_null, is_match,
  is_number, is_not_number, always, never, both, either, group, Term, literal, digit, column, Case,
  ClickHouse, text_in, number_in,
}
use staminads.Api.Filters.Compiler.Escaping.{escape_sql, read_literal, read_literal-escape_sql}
use staminads.Api.Filters.Compiler.Print.{print_expression, print_term, print_case, print_clauses}
use staminads.Api.Filters.Compiler.Errors.{compile_filters_to_sql-IsSome}
use staminads.Api.Filters.Compiler.Conditions.{same_regex}
use staminads.Api.Filters.Compiler.Candidates.{column_text}
use staminads.Api.Filters.Compiler.Refinement.{case_text-compile_filters_to_sql}
use staminads.Api.Filters.Compiler.{
  condition_sql, compile_condition, compile_conditions, validate_source_field, validate_dimension,
  group_operations, group_filters, build_case_expression, compile_filters_to_sql, CompiledFilters,
}

-- A database that reads every expression by its documented meaning, with a `match` that looks for
-- the pattern as it is.
abbrev holds : FieldValues → Expression → Bool
holds row (equals_text f v) = str_eq (text_in row f) v
holds row (differs_text f v) = not (str_eq (text_in row f) v)
holds row (has_position f v) = includes (text_in row f) v
holds row (no_position f v) = not (includes (text_in row f) v)
holds row (is_match f v) = includes (text_in row f) v
holds row (is_null f) = false
holds row (is_not_null f) = true
holds row (is_number f n) = number_in row f == n
holds row (is_not_number f n) = not (number_in row f == n)
holds row always = true
holds row never = false
holds row (both a b) = holds row a && holds row b
holds row (either a b) = holds row a || holds row b
holds row (group a) = holds row a

abbrev term_text : FieldValues → Term → String
term_text row (literal v) = v
term_text row (digit n) = if n == 0 then "false" else "true"
term_text row (column f) = text_in row f

abbrev branch_text : FieldValues → List (Expression × Term) → Term → String
branch_text row [] last = term_text row last
branch_text row ((c, v) ∷ rest) last =
    let others = branch_text row rest last in if holds row c then term_text row v else others

abbrev database : ClickHouse
database = record {
  holds = holds;
  matches = λ pattern s. includes s pattern;
  case_text = λ row c. branch_text row c.branches c.otherwise;
  holds_equals_text = λ row f v. refl;
  holds_differs_text = λ row f v. refl;
  holds_has_position = λ row f v. refl;
  holds_no_position = λ row f v. refl;
  holds_is_match = λ row f v. refl;
  holds_is_null = λ row f. refl;
  holds_is_not_null = λ row f. refl;
  holds_is_number = λ row f n. refl;
  holds_is_not_number = λ row f n. refl;
  holds_always = λ row. refl;
  holds_never = λ row. refl;
  holds_both = λ row a b. refl;
  holds_either = λ row a b. refl;
  holds_group = λ row a. refl;
  text_otherwise = λ row v. refl;
  text_branch = λ row c v rest last. refl;
}

abbrev condition : String → FilterOperator → String → FilterCondition
condition field operator value = record { field = field; operator = operator; value = some value }

abbrev make : String → ℕ → List FilterCondition → List FilterOperation → FilterDefinition
make id priority conditions operations = record {
  id = id;
  name = id;
  priority = priority;
  order = 0;
  tags = [];
  conditions = conditions;
  operations = operations;
  enabled = true;
  version = "";
  created_at = "";
  updated_at = "";
}

abbrev paid : FilterDefinition
paid =
    make "paid" 100
      (condition "utm_source" equals "google" ∷ condition "is_direct" equals "false" ∷ [])
      (record { dimension = "channel"; action = set_value; value = some "Paid Search" } ∷ [])

abbrev social : FilterDefinition
social =
    make "social" 50 (condition "referrer_domain" contains "o'hare" ∷ [])
      (record { dimension = "channel"; action = set_value; value = some "Social" } ∷ [])

abbrev two_filters : List FilterDefinition
two_filters = social ∷ paid ∷ []

abbrev event : FieldValues
event =
    ("utm_source", some "google")
    ∷ ("is_direct", some "false")
    ∷ ("referrer_domain", some "ads.o'hare.org")
    ∷ []

abbrev no_hash : List FilterDefinition → String
no_hash filters = ""

abbrev clauses_of : Option CompiledFilters → String
clauses_of none = "throws"
clauses_of (some out) = print_clauses out.set_clauses

printed :
    clauses_of (compile_filters_to_sql no_hash two_filters)
    ≡ "channel = CASE\n    WHEN (utm_source != '' AND utm_source = 'google') AND is_direct = 0 THEN 'Paid Search'\n    WHEN (referrer_domain != '' AND position(referrer_domain, 'o\\'hare') > 0) THEN 'Social'\n    ELSE ''\n  END"
unfolding compile_filters_to_sql compile_conditions compile_condition validate_source_field
    validate_dimension group_operations group_filters build_case_expression get put
    insert_by_priority sort_by_priority print_clauses print_case print_expression print_term
    escape_sql decimal
printed = refl

escaped : escape_sql "it's a\\path" ≡ "it\\'s a\\\\path"
unfolding escape_sql
escaped = refl

abbrev two_clauses : CompiledFilters
two_clauses = record {
  set_clauses =
      (
        "channel",
        record {
          branches =
              (
                both (condition_sql (condition "utm_source" equals "google"))
                    (condition_sql (condition "is_direct" equals "false")),
                literal "Paid Search",
              )
              ∷ (condition_sql (condition "referrer_domain" contains "o'hare"), literal "Social")
              ∷ [];
          otherwise = literal "";
        },
      )
      ∷ [];
  filter_version = "";
}

compiled : compile_filters_to_sql no_hash two_filters ≡ some two_clauses
unfolding compile_filters_to_sql compile_conditions compile_condition validate_source_field
    validate_dimension group_operations group_filters build_case_expression get put
    insert_by_priority sort_by_priority
compiled = refl

case_text-compile_filters_to_sql_example :
    (c : Case) × ((get two_clauses.set_clauses "channel" ≡ some c)
      × (database.case_text event c
          ≡ column_text
              (get (evaluate_filters (same_regex database event) event two_filters) "channel")))
unfolding get
case_text-compile_filters_to_sql_example =
    case_text-compile_filters_to_sql database event "channel" "false" refl (inr refl) no_hash
      two_filters two_clauses refl refl (((λ e. absurd (ground arith)), tt), (tt, tt))
      (
        (((λ e. absurd (ground arith)), tt), (omega arith, (refl, tt))),
        ((((λ e. absurd (ground arith)), tt), (omega arith, (refl, (refl, tt)))), tt),
      )
      compiled

compile_filters_to_sql-IsSome_example :
    (out : CompiledFilters) × (compile_filters_to_sql no_hash two_filters ≡ some out)
unfolding validate_source_field validate_dimension
compile_filters_to_sql-IsSome_example =
    compile_filters_to_sql-IsSome no_hash two_filters
      (((refl, tt), ((refl, refl), tt)), (((refl, (refl, tt)), ((refl, refl), tt)), tt))

read_literal-escape_sql_example :
    read_literal (λ c. c) (escape_sql "' OR '1' = '1" <> "' AND path = 'x'")
    ≡ some ("' OR '1' = '1", " AND path = 'x'")
read_literal-escape_sql_example =
    read_literal-escape_sql (λ c. c) (λ c h. refl) "' OR '1' = '1" " AND path = 'x'" refl
