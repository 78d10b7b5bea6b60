-- ===== src/Api/Filters/Compiler/Sql.antt =====
-- The SQL that api/src/filters/lib/filter-compiler.ts writes, as trees, and what the client relies
-- on ClickHouse for. Which rows an expression selects is ClickHouse's: its functions are fields
-- of an interface, whose laws are the documented meaning of the operators that occur.
use staminads.Common.{
  ℕ, String, ◌≡◌, Bool, true, false, not, ◌&&◌, ◌||◌, List, ◌∷◌, [], ◌==◌, str_eq, if◌then◌else◌,
}
use staminads.Api.Filters.Evaluator.{FieldValues, field_value, or_empty, is_value, includes}

-- Texts stand in it as they are before escaping. `either` only stands in a `group`, the
-- parentheses.
pub data Expression : Type 0 where
  equals_text differs_text has_position no_position is_match : String → String → Expression
  is_null is_not_null : String → Expression
  is_number is_not_number : String → ℕ → Expression
  always never : Expression
  both either : Expression → Expression → Expression
  group : Expression → Expression

-- What follows THEN or ELSE.
pub data Term : Type 0 where
  literal : String → Term
  digit : ℕ → Term
  column : String → Term

pub record Case : Type 0 where
  pub branches : List (Expression × Term)
  pub otherwise : Term

-- The text in a column of type String DEFAULT ''.
abbrev pub text_in : FieldValues → String → String
text_in row field = or_empty (field_value row field)

-- The number in a Bool column, which an event gives as 'true' or 'false'.
abbrev pub number_in : FieldValues → String → ℕ
number_in row field = if is_value "true" (field_value row field) then 1 else 0

pub record ClickHouse : Type 0 where
  -- Whether a row satisfies an expression, and `match(text, pattern)`.
  pub holds : FieldValues → Expression → Bool
  pub matches : String → String → Bool
  -- The text that an expression gives for a row.
  pub case_text : FieldValues → Case → String
  pub holds_equals_text :
      (row : FieldValues) (f : String) (v : String)
      → holds row (equals_text f v) ≡ str_eq (text_in row f) v
  pub holds_differs_text :
      (row : FieldValues) (f : String) (v : String)
      → holds row (differs_text f v) ≡ not (str_eq (text_in row f) v)
  pub holds_has_position :
      (row : FieldValues) (f : String) (v : String)
      → holds row (has_position f v) ≡ includes (text_in row f) v
  pub holds_no_position :
      (row : FieldValues) (f : String) (v : String)
      → holds row (no_position f v) ≡ not (includes (text_in row f) v)
  pub holds_is_match :
      (row : FieldValues) (f : String) (v : String)
      → holds row (is_match f v) ≡ matches v (text_in row f)
  -- No column of the events is nullable.
  pub holds_is_null : (row : FieldValues) (f : String) → holds row (is_null f) ≡ false
  pub holds_is_not_null : (row : FieldValues) (f : String) → holds row (is_not_null f) ≡ true
  pub holds_is_number :
      (row : FieldValues) (f : String) (n : ℕ) → holds row (is_number f n) ≡ (number_in row f == n)
  pub holds_is_not_number :
      (row : FieldValues) (f : String) (n : ℕ)
      → holds row (is_not_number f n) ≡ not (number_in row f == n)
  pub holds_always : (row : FieldValues) → holds row always ≡ true
  pub holds_never : (row : FieldValues) → holds row never ≡ false
  pub holds_both :
      (row : FieldValues) (a : Expression) (b : Expression)
      → holds row (both a b) ≡ (holds row a && holds row b)
  pub holds_either :
      (row : FieldValues) (a : Expression) (b : Expression)
      → holds row (either a b) ≡ (holds row a || holds row b)
  pub holds_group : (row : FieldValues) (a : Expression) → holds row (group a) ≡ holds row a
  pub text_otherwise :
      (row : FieldValues) (v : String)
      → case_text row (record { branches = []; otherwise = literal v }) ≡ v
  pub text_branch :
      (row : FieldValues) (c : Expression) (v : String) (rest : List (Expression × Term))
      (last : Term)
      → case_text row (record { branches = (c, literal v) ∷ rest; otherwise = last })
        ≡ (if holds row c then v else case_text row (record { branches = rest; otherwise = last }))
