-- ===== src/Api/Filters/Compiler/Print.antt =====
-- The text of the SET clause that api/src/filters/lib/filter-compiler.ts returns.
use staminads.Common.{String, List, [], ◌∷◌}
use staminads.Common.Dict.{Dict}
use staminads.Common.Texts.{◌<>◌, decimal}
use staminads.Api.Filters.Compiler.Sql.{
  Expression, equals_text, differs_text, has_position, no_position, is_null, is_not_null, is_match,
  is_number, is_not_number, always, never, both, either, group, Term, literal, digit, column, Case,
}
use staminads.Api.Filters.Compiler.Escaping.{escape_sql, escape_regex}

abbrev quote : String → String
quote value = "'" <> escape_sql value <> "'"

unfoldable pub print_expression : Expression → String
print_expression (equals_text field value) = field <> " = " <> quote value
print_expression (differs_text field value) = field <> " != " <> quote value
print_expression (has_position field value) = "position(" <> field <> ", " <> quote value <> ") > 0"
print_expression (no_position field value) = "position(" <> field <> ", " <> quote value <> ") = 0"
print_expression (is_match field value) = "match(" <> field <> ", '" <> escape_regex value <> "')"
print_expression (is_null field) = field <> " IS NULL"
print_expression (is_not_null field) = field <> " IS NOT NULL"
print_expression (is_number field n) = field <> " = " <> decimal n
print_expression (is_not_number field n) = field <> " != " <> decimal n
print_expression always = "1 = 1"
print_expression never = "0 = 1"
print_expression (both a b) = print_expression a <> " AND " <> print_expression b
print_expression (either a b) = print_expression a <> " OR " <> print_expression b
print_expression (group a) = "(" <> print_expression a <> ")"

unfoldable pub print_term : Term → String
print_term (literal value) = quote value
print_term (digit n) = decimal n
print_term (column field) = field

abbrev print_branches : List (Expression × Term) → String
print_branches [] = ""
print_branches ((condition, value) ∷ []) =
    "WHEN " <> print_expression condition <> " THEN " <> print_term value
print_branches ((condition, value) ∷ other ∷ rest) =
    "WHEN "
    <> print_expression condition
    <> " THEN "
    <> print_term value
    <> "\n    "
    <> print_branches (other ∷ rest)

unfoldable pub print_case : Case → String
print_case c =
    "CASE\n    "
    <> print_branches c.branches
    <> "\n    ELSE "
    <> print_term c.otherwise
    <> "\n  END"

-- `setClauses.join(',\n  ')`
unfoldable pub print_clauses : Dict Case → String
print_clauses [] = ""
print_clauses ((dim, expression) ∷ []) = dim <> " = " <> print_case expression
print_clauses ((dim, expression) ∷ other ∷ rest) =
    dim <> " = " <> print_case expression <> ",\n  " <> print_clauses (other ∷ rest)
