-- ===== src/Api/Filters/Compiler/Errors.antt =====
-- When the compiler throws (api/src/filters/lib/filter-compiler.ts).
use staminads.Common.{
  String, ◌≡◌, refl, Bool, true, Option, none, some, List, [], ◌∷◌, arith, All, All-append, filter,
  str_eq, IsSome, bind-IsSome, Bool-cases, inl, inr,
}
use staminads.Common.Dict.{get, put, is_present}
use staminads.Api.Filters.Evaluator.{
  FilterAction, set_value, unset_value, set_default_value, FilterCondition, FilterOperation,
  FilterDefinition,
}
use staminads.Api.Filters.Compiler.Sql.{
  Expression, is_number, group, either, equals_text, is_null, Term,
}
use staminads.Api.Filters.Compiler.Descending.{All-sort_by_priority}
use staminads.Api.Filters.Compiler.{
  validate_source_field, validate_dimension, compile_condition, join_conditions, compile_conditions,
  CaseBranch, then_value, boolean_value, when_clauses, guarded_clauses, build_case_expression,
  build_standard_field_case_expression, build_boolean_case_expression, branches_of,
  DimensionBranches, push_branch, group_operations, group_filters, custom_clause, custom_clauses,
  standard_clause, standard_clauses, custom_dimensions, is_in, sorted_enabled,
  compile_filters_to_sql,
}

-- The action is unset_value or there is a value for it.
abbrev has_value : FilterAction → Option String → Bool
has_value unset_value value = true
has_value _ value = is_present value

-- What the compiler asks of a filter.
abbrev pub IsAccepted : FilterDefinition → Type 0
IsAccepted f =
    All (λ c. validate_source_field c.field ≡ true) f.conditions
    × All (λ op. (validate_dimension op.dimension ≡ true) × (has_value op.action op.value ≡ true))
        f.operations

abbrev HasValue : CaseBranch → Type 0
HasValue b = has_value b.action b.value ≡ true

abbrev IsComplete : DimensionBranches → Type 0
IsComplete table = All (λ entry. All HasValue entry.1) table

compile_condition-IsSome :
    (c : FilterCondition) → validate_source_field c.field ≡ true → IsSome (compile_condition c)
unfolding compile_condition
compile_condition-IsSome c h = rw h (_, refl)

join_conditions-IsSome :
    (c : FilterCondition) (rest : List FilterCondition)
    → All (λ c. validate_source_field c.field ≡ true) (c ∷ rest)
    → IsSome (join_conditions c rest)
join_conditions-IsSome c [] (h, _) = compile_condition-IsSome c h
join_conditions-IsSome c (d ∷ rest) (h, hs) =
    bind-IsSome (compile_condition c) _ (compile_condition-IsSome c h) λ first _.
      bind-IsSome (join_conditions d rest) _ (join_conditions-IsSome d rest hs)
        λ others _. (_, refl)

compile_conditions-IsSome :
    (cs : List FilterCondition)
    → All (λ c. validate_source_field c.field ≡ true) cs
    → IsSome (compile_conditions cs)
unfolding compile_conditions
compile_conditions-IsSome [] _ = (_, refl)
compile_conditions-IsSome (c ∷ rest) h = join_conditions-IsSome c rest h

branches_of-HasValue :
    (table : DimensionBranches) (d : String)
    → IsComplete table
    → All HasValue (branches_of (get table d))
unfolding get
branches_of-HasValue [] d _ = tt
branches_of-HasValue ((name, branches) ∷ rest) d (h, hs) = elim (Bool-cases (str_eq name d)) [
  | inl same ↦ rw same h
  | inr other ↦ rw other (branches_of-HasValue rest d hs)
]

put-IsComplete :
    (table : DimensionBranches) (d : String) (branches : List CaseBranch)
    → IsComplete table
    → All HasValue branches
    → IsComplete (put table d branches)
unfolding put
put-IsComplete [] d branches _ k = (k, tt)
put-IsComplete ((name, old) ∷ rest) d branches (h, hs) k = elim (Bool-cases (str_eq name d)) [
  | inl same ↦ rw same (k, hs)
  | inr other ↦ rw other (h, put-IsComplete rest d branches hs k)
]

group_operations-IsSome :
    (table : DimensionBranches) (e : Expression) (ops : List FilterOperation)
    → IsComplete table
    → All
        (λ op. (validate_dimension op.dimension ≡ true) × (has_value op.action op.value ≡ true))
        ops
    → (out : DimensionBranches) × ((group_operations table e ops ≡ some out) × IsComplete out)
unfolding group_operations
group_operations-IsSome table e [] complete _ = (table, (refl, complete))
group_operations-IsSome table e (op ∷ rest) complete ((valid, given), hs) =
    let here = branches_of-HasValue table op.dimension complete in
    let pushed =
      put-IsComplete table op.dimension _ complete (All-append HasValue _ _ here (given, tt)) in
    rw valid (group_operations-IsSome (push_branch table e op) e rest pushed hs)

group_filters-IsSome :
    (table : DimensionBranches) (fs : List FilterDefinition)
    → IsComplete table
    → All IsAccepted fs
    → (out : DimensionBranches) × ((group_filters table fs ≡ some out) × IsComplete out)
unfolding group_filters
group_filters-IsSome table [] complete _ = (table, (refl, complete))
group_filters-IsSome table (f ∷ rest) complete ((valid, given), hs) =
    let (e, h1) = compile_conditions-IsSome f.conditions valid in
    let (grouped, (h2, still)) = group_operations-IsSome table e f.operations complete given in
    let (out, (h3, whole)) = group_filters-IsSome grouped rest still hs in
    (out, (rw (h1, h2) h3, whole))

then_value-IsSome :
    (a : FilterAction) (value : Option String)
    → has_value a value ≡ true
    → IsSome (then_value a value)
then_value-IsSome set_value none h = absurd (ground arith)
then_value-IsSome set_value (some v) h = (_, refl)
then_value-IsSome unset_value value h = (_, refl)
then_value-IsSome set_default_value none h = absurd (ground arith)
then_value-IsSome set_default_value (some v) h = (_, refl)

boolean_value-IsSome : (a : FilterAction) (value : Option String) → IsSome (boolean_value a value)
boolean_value-IsSome set_value value = (_, refl)
boolean_value-IsSome unset_value value = (_, refl)
boolean_value-IsSome set_default_value value = (_, refl)

when_clauses-IsSome : (bs : List CaseBranch) → All HasValue bs → IsSome (when_clauses bs)
when_clauses-IsSome [] _ = (_, refl)
when_clauses-IsSome (b ∷ rest) (h, hs) =
    bind-IsSome (then_value b.action b.value) _ (then_value-IsSome b.action b.value h)
      λ t _. bind-IsSome (when_clauses rest) _ (when_clauses-IsSome rest hs) λ others _. (_, refl)

guarded_clauses-IsSome :
    (check : Expression) (value_of : FilterAction → Option String → Option Term)
    (bs : List CaseBranch)
    → ((a : FilterAction) (v : Option String) → has_value a v ≡ true → IsSome (value_of a v))
    → All HasValue bs
    → IsSome (guarded_clauses check value_of bs)
guarded_clauses-IsSome check value_of [] gives _ = (_, refl)
guarded_clauses-IsSome check value_of (b ∷ rest) gives (h, hs) =
    bind-IsSome (value_of b.action b.value) _ (gives b.action b.value h) λ t _.
      bind-IsSome (guarded_clauses check value_of rest) _
        (guarded_clauses-IsSome check value_of rest gives hs) λ others _. (_, refl)

custom_clause-IsSome :
    (d : String) (bs : List CaseBranch) → All HasValue bs → IsSome (custom_clause d bs)
unfolding build_case_expression
custom_clause-IsSome d [] _ = (_, refl)
custom_clause-IsSome d (b ∷ rest) h =
    let (clauses, e) = when_clauses-IsSome (b ∷ rest) h in rw e (_, refl)

custom_clauses-IsSome :
    (table : DimensionBranches) (dims : List String)
    → IsComplete table
    → IsSome (custom_clauses table dims)
custom_clauses-IsSome table [] _ = (_, refl)
custom_clauses-IsSome table (d ∷ rest) complete =
    bind-IsSome (custom_clause d (branches_of (get table d))) _
      (custom_clause-IsSome d _ (branches_of-HasValue table d complete))
      λ clause _.
        bind-IsSome (custom_clauses table rest) _ (custom_clauses-IsSome table rest complete)
          λ others _. (_, refl)

standard_clause-IsSome :
    (d : String) (bs : List CaseBranch) → All HasValue bs → IsSome (standard_clause d bs)
unfolding build_boolean_case_expression build_standard_field_case_expression
standard_clause-IsSome d bs h = elim (Bool-cases (str_eq d "is_direct")) [
  | inl direct ↦
      let (clauses, e) =
        guarded_clauses-IsSome (is_number "is_direct" 0) boolean_value bs
          (λ a v _. boolean_value-IsSome a v) h in
      rw (direct, e) (_, refl)
  | inr other ↦
      let (clauses, e) =
        guarded_clauses-IsSome (group (either (equals_text d "") (is_null d))) then_value bs
          then_value-IsSome h in
      rw (other, e) (_, refl)
]

standard_clauses-IsSome :
    (table : DimensionBranches) → IsComplete table → IsSome (standard_clauses table)
standard_clauses-IsSome [] _ = (_, refl)
standard_clauses-IsSome ((d, bs) ∷ rest) (h, hs) =
    let (others, e) = standard_clauses-IsSome rest hs in
    elim (Bool-cases (is_in custom_dimensions d)) [
      | inl custom ↦ rw custom (others, e)
      | inr standard ↦ let (c, k) = standard_clause-IsSome d bs h in rw (standard, k, e) (_, refl)
    ]

-- The compiler does not throw when the conditions of every enabled filter are on source fields
-- and its operations on writable dimensions, with a value unless they unset.
pub compile_filters_to_sql-IsSome :
    (compute_filter_version : List FilterDefinition → String) (filters : List FilterDefinition)
    → All IsAccepted (filter (λ f. f.enabled) filters)
    → IsSome (compile_filters_to_sql compute_filter_version filters)
unfolding compile_filters_to_sql
compile_filters_to_sql-IsSome version filters h =
    let (table, (e, complete)) =
      group_filters-IsSome [] (sorted_enabled filters) tt (All-sort_by_priority IsAccepted _ h) in
    rw e (
      bind-IsSome (custom_clauses table custom_dimensions) _
        (custom_clauses-IsSome table custom_dimensions complete)
        λ customs _.
          bind-IsSome (standard_clauses table) _ (standard_clauses-IsSome table complete)
            λ standards _. (_, refl))
