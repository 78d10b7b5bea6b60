-- ===== src/Api/Filters/Compiler/Conditions.antt =====
-- The compiled conditions against the evaluation of the same conditions on one event
-- (api/src/filters/lib/filter-compiler.ts, api/src/filters/lib/filter-evaluator.ts).
use staminads.Common.{
  String, ◌≡◌, refl, sym, ap, ◌∙◌, Bool, true, false, not, ◌&&◌, ◌||◌, Option, none, some, List, [],
  ◌∷◌, arith, All, all, ◌==◌, str_eq, eq_iff, if◌then◌else◌, Bool-cases, inl, inr, ◌⊎◌,
}
use staminads.Api.Filters.Evaluator.{
  FilterOperator, equals, not_equals, contains, not_contains, is_empty, is_not_empty, regex,
  FilterCondition, FieldValues, field_value, or_empty, is_value, is_empty_operator, includes,
  evaluate_condition, evaluate_conditions, test_operator,
}
use staminads.Api.Filters.Compiler.Sql.{ClickHouse}
use staminads.Api.Filters.Compiler.{bit, is_true_value, condition_sql, compile_direct, compile_text}
use staminads.Api.Filters.Compiler.Cases.{joined, conditions_sql}

-- `is_direct` is compared with 'true' or 'false'.
abbrev pub is_truth_test : FilterOperator → Option String → Bool
is_truth_test equals (some v) = str_eq v "true" || str_eq v "false"
is_truth_test not_equals (some v) = str_eq v "true" || str_eq v "false"
is_truth_test _ _ = false

abbrev pub IsComparable : FilterCondition → Type 0
IsComparable c = (not (str_eq c.field "is_direct") || is_truth_test c.operator c.value) ≡ true

and-true : (b : Bool) → (b && true) ≡ b
and-true true = refl
and-true false = refl

or-false : (b : Bool) → (b || false) ≡ b
or-false true = refl
or-false false = refl

abbrev pub IsTruth : String → Type 0
IsTruth v = (v ≡ "true") ⊎ (v ≡ "false")

IsTruth-cases : (v : String) → (str_eq v "true" || str_eq v "false") ≡ true → IsTruth v
IsTruth-cases v h = elim (Bool-cases (str_eq v "true")) [
  | inl e ↦ inl ((eq_iff v "true").0 e)
  | inr e ↦ inr ((eq_iff v "false").0 (ground arith))
]

direct_equals :
    (b v : String)
    → IsTruth b
    → IsTruth v
    → ((if str_eq "true" b then 1 else 0) == bit (is_true_value (some v))) ≡ str_eq b v
direct_equals b v (inl e) (inl k) = rw (e, k) refl
direct_equals b v (inl e) (inr k) = rw (e, k) refl
direct_equals b v (inr e) (inl k) = rw (e, k) refl
direct_equals b v (inr e) (inr k) = rw (e, k) refl

nonempty_truth : (b : String) → IsTruth b → str_eq b "" ≡ false
nonempty_truth b (inl e) = rw e refl
nonempty_truth b (inr e) = rw e refl

module _ (ch : ClickHouse) (row : FieldValues) where
  -- RegExp tests a text like `match` does.
  abbrev pub same_regex : String → String → Option Bool
  same_regex pattern s = some (ch.matches pattern s)

  abbrev outcome : Option String → FilterOperator → Option String → Bool
  outcome none op value = is_empty_operator op
  outcome (some s) op value =
      if str_eq s "" then is_empty_operator op else test_operator same_regex op value s

  when_text :
      (fv : Option String) (op : FilterOperator) (value : Option String) (t : String → Bool)
      → is_empty_operator op ≡ false
      → ((s : String) → str_eq s "" ≡ false → t s ≡ test_operator same_regex op value s)
      → (not (str_eq (or_empty fv) "") && t (or_empty fv)) ≡ outcome fv op value
  when_text none op value t h k = sym h
  when_text (some s) op value t h k = elim (Bool-cases (str_eq s "")) [
    | inl nothing ↦ rw nothing (sym h)
    | inr something ↦ rw something (k s something)
  ]

  equals_value :
      (value : Option String) (s : String)
      → str_eq s "" ≡ false
      → str_eq s (or_empty value) ≡ is_value s value
  equals_value none s h = h
  equals_value (some v) s h = refl

  empty_value : (fv value : Option String) → str_eq (or_empty fv) "" ≡ outcome fv is_empty value
  unfolding test_operator
  empty_value none value = refl
  empty_value (some s) value = ground arith

  holds-compile_text :
      (field : String) (op : FilterOperator) (value : Option String)
      → ch.holds row (compile_text field op (or_empty value))
        ≡ outcome (field_value row field) op value
  unfolding test_operator
  holds-compile_text field equals value =
      rw (ch.holds_group, ch.holds_both, ch.holds_differs_text, ch.holds_equals_text)
        (when_text (field_value row field) equals value (λ s. str_eq s (or_empty value)) refl
          (equals_value value))
  holds-compile_text field not_equals value =
      rw (ch.holds_group, ch.holds_both, ch.holds_differs_text row field "", ch.holds_differs_text)
        (when_text (field_value row field) not_equals value (λ s. not (str_eq s (or_empty value)))
          refl (λ s h. ap not (equals_value value s h)))
  holds-compile_text field contains value =
      rw (ch.holds_group, ch.holds_both, ch.holds_differs_text, ch.holds_has_position)
        (when_text (field_value row field) contains value (λ s. includes s (or_empty value)) refl
          (λ s h. refl))
  holds-compile_text field not_contains value =
      rw (ch.holds_group, ch.holds_both, ch.holds_differs_text, ch.holds_no_position)
        (when_text (field_value row field) not_contains value
          (λ s. not (includes s (or_empty value))) refl (λ s h. refl))
  holds-compile_text field is_empty value =
      rw (ch.holds_group, ch.holds_either, ch.holds_equals_text, ch.holds_is_null)
        (or-false _ ∙ empty_value (field_value row field) value)
  holds-compile_text field is_not_empty value =
      rw (ch.holds_group, ch.holds_both, ch.holds_differs_text, ch.holds_is_not_null)
        (when_text (field_value row field) is_not_empty value (λ s. true) refl (λ s h. refl))
  holds-compile_text field regex value =
      rw (ch.holds_group, ch.holds_both, ch.holds_differs_text, ch.holds_is_match)
        (when_text (field_value row field) regex value (λ s. ch.matches (or_empty value) s) refl
          (λ s h. refl))

  outcome_lem :
      (fv : Option String) (op : FilterOperator) (value : Option String)
      → (elim fv [
        | none ↦ is_empty_operator op
        | some s ↦ if str_eq s "" then is_empty_operator op else test_operator same_regex op value s
      ])
        ≡ outcome fv op value
  outcome_lem none op value = refl
  outcome_lem (some s) op value = refl

  module _ (b : String) (known : field_value row "is_direct" ≡ some b) (truth : IsTruth b) where
    holds-compile_direct :
        (op : FilterOperator) (value : Option String)
        → is_truth_test op value ≡ true
        → ch.holds row (compile_direct op value) ≡ outcome (field_value row "is_direct") op value
    unfolding test_operator
    holds-compile_direct equals (some v) h =
        rw (ch.holds_is_number, known, nonempty_truth b truth)
          (direct_equals b v truth (IsTruth-cases v h))
    holds-compile_direct not_equals (some v) h =
        rw (ch.holds_is_not_number, known, nonempty_truth b truth)
          (ap not (direct_equals b v truth (IsTruth-cases v h)))
    holds-compile_direct equals none h = absurd (ground arith)
    holds-compile_direct not_equals none h = absurd (ground arith)
    holds-compile_direct contains value h = absurd (ground arith)
    holds-compile_direct not_contains value h = absurd (ground arith)
    holds-compile_direct is_empty value h = absurd (ground arith)
    holds-compile_direct is_not_empty value h = absurd (ground arith)
    holds-compile_direct regex value h = absurd (ground arith)

    holds-condition_sql :
        (c : FilterCondition)
        → IsComparable c
        → ch.holds row (condition_sql c) ≡ evaluate_condition same_regex c row
    unfolding evaluate_condition
    holds-condition_sql c h = elim (Bool-cases (str_eq c.field "is_direct")) [
      | inl direct ↦
          let k : c.field ≡ "is_direct" = (eq_iff c.field "is_direct").0 direct in
          rw (direct, k)
            (holds-compile_direct c.operator c.value (ground arith)
              ∙ sym (outcome_lem (field_value row "is_direct") c.operator c.value))
      | inr other ↦ rw other (
          holds-compile_text c.field c.operator c.value
          ∙ sym (outcome_lem (field_value row c.field) c.operator c.value))
    ]

    holds-joined :
        (c : FilterCondition) (cs : List FilterCondition)
        → All IsComparable (c ∷ cs)
        → ch.holds row (joined c cs) ≡ all (λ d. evaluate_condition same_regex d row) (c ∷ cs)
    holds-joined c [] (h, _) = holds-condition_sql c h ∙ sym (and-true _)
    holds-joined c (d ∷ rest) (h, hs) =
        rw ch.holds_both (rw (holds-condition_sql c h, holds-joined d rest hs) refl)

    pub holds-conditions_sql :
        (cs : List FilterCondition)
        → All IsComparable cs
        → ch.holds row (conditions_sql cs) ≡ evaluate_conditions same_regex cs row
    unfolding evaluate_conditions
    holds-conditions_sql [] h = ch.holds_always row
    holds-conditions_sql (c ∷ rest) h = holds-joined c rest h
