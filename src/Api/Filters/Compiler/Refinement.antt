-- ===== src/Api/Filters/Compiler/Refinement.antt =====
-- The compiled CASE expression against the evaluation of the same filters on one event
-- (api/src/filters/lib/filter-compiler.ts, api/src/filters/lib/filter-evaluator.ts).
use staminads.Common.{
  ℕ, ◌≤◌, ◌<◌, String, ◌≡◌, ◌≢◌, refl, sym, ap, ◌∙◌, Bool, true, Option, none, some, List, [], ◌∷◌,
  ◌++◌, map, arith, All, length, filter, any, if◌then◌else◌, some_of_bind, some_inj,
}
use staminads.Common.Dict.{get, get-append}
use staminads.Api.Filters.Evaluator.{
  FilterAction, set_value, unset_value, set_default_value, FilterOperation, FilterDefinition,
  FieldValues, field_value, evaluate_conditions, evaluate_filters,
}
use staminads.Api.Filters.Evaluator.Winner.{
  better-none, action_candidate, operations_candidate, filter_candidate, total, IsNoDefault,
  get-run_filters, value_of,
}
use staminads.Api.Filters.Compiler.Sql.{Expression, Case, ClickHouse, Term, literal}
use staminads.Api.Filters.Compiler.{
  CaseBranch, build_case_expression, then_value, when_clauses, sorted_enabled,
  compile_filters_to_sql, custom_dimensions, is_in, group_filters, custom_clauses, standard_clauses,
  CompiledFilters,
}
use staminads.Api.Filters.Compiler.Cases.{
  conditions_sql, writes, branch, operation_branches, filter_branches, branches_of-group_filters,
  get-custom_clauses, nonempty, is_nonempty-filter_branches,
}
use staminads.Api.Filters.Evaluator.Order.{filter_candidate-HasPriority}
use staminads.Api.Filters.Compiler.Descending.{
  IsDescending, IsDistinct, All-sort_by_priority, any-sort_by_priority,
  sort_by_priority-IsDescending,
}
use staminads.Api.Filters.Compiler.Conditions.{
  IsComparable, IsTruth, same_regex, holds-conditions_sql,
}
use staminads.Api.Filters.Compiler.Candidates.{
  operations_candidate-filter, filter-writes, action_candidate_text, better-IsBelow,
  HasPriority-IsBelow, candidate_text-better, candidate_text-if, column_text, action_text,
  candidate_text, IsBelow,
}

-- A filter that sets the dimension `d` at most once and sets no default for it, with conditions
-- that the compiler and the evaluator read the same.
abbrev pub IsPlain : String → FilterDefinition → Type 0
IsPlain d f =
    All (IsNoDefault d) f.operations
    × ((length (filter (writes d) f.operations) ≤ 1) × All IsComparable f.conditions)

abbrev pub targets : String → FilterDefinition → Bool
targets d f = any (writes d) f.operations

no_defaults :
    (d : String) (fs : List FilterDefinition)
    → All (IsPlain d) fs
    → All (λ f. All (IsNoDefault d) f.operations) fs
no_defaults d [] _ = tt
no_defaults d (f ∷ rest) ((free, _), hs) = (free, no_defaults d rest hs)

module _ (ch : ClickHouse) (row : FieldValues) (d : String) where
  -- The text of the first branch that holds.
  abbrev first_text : List CaseBranch → String
  first_text [] = ""
  first_text (b ∷ rest) =
      let others = first_text rest in
      if ch.holds row b.condition then action_text b.action b.value else others

  then_value_lem :
      (a : FilterAction) (value : Option String) (t : Term)
      → then_value a value ≡ some t
      → t ≡ literal (action_text a value)
  then_value_lem set_value none t h = absurd (ground arith)
  then_value_lem set_value (some v) t h = sym (some_inj _ t h)
  then_value_lem unset_value value t h = sym (some_inj _ t h)
  then_value_lem set_default_value none t h = absurd (ground arith)
  then_value_lem set_default_value (some v) t h = sym (some_inj _ t h)

  case_text-when_clauses :
      (bs : List CaseBranch) (clauses : List (Expression × Term))
      → when_clauses bs ≡ some clauses
      → ch.case_text row (record { branches = clauses; otherwise = literal "" }) ≡ first_text bs
  case_text-when_clauses [] clauses h = rw (← some_inj [] clauses h) (ch.text_otherwise row "")
  case_text-when_clauses (b ∷ rest) clauses h =
      let (t, (h1, h2)) = some_of_bind (then_value b.action b.value) _ clauses h in
      let (others, (h3, h4)) = some_of_bind (when_clauses rest) _ clauses h2 in
      let ih = case_text-when_clauses rest others h3 in
      rw (← some_inj _ clauses h4, then_value_lem b.action b.value t h1)
        (ch.text_branch row b.condition _ others (literal "") ∙ rw ih refl)

  case_text-build_case_expression :
      (bs : List CaseBranch) (c : Case)
      → build_case_expression bs ≡ some c
      → ch.case_text row c ≡ first_text bs
  unfolding build_case_expression
  case_text-build_case_expression bs c h =
      let (clauses, (h1, h2)) = some_of_bind (when_clauses bs) _ c h in
      rw (← some_inj _ c h2) (case_text-when_clauses bs clauses h1)

  first_text-operation_branches :
      (p : ℕ) (e : Expression) (ops : List FilterOperation) (more : List CaseBranch)
      → length ops ≤ 1
      → All (λ op. IsNoDefault d op × (writes d op ≡ true)) ops
      → first_text (map (branch e) ops ++ more) ≡ (
          if ch.holds row e
          then candidate_text (operations_candidate p d ops) (first_text more)
          else first_text more)
  unfolding operations_candidate
  first_text-operation_branches p e [] more h _ = ground arith
  first_text-operation_branches p e (op ∷ []) more h ((free, same), _) =
      let set : op.action ≢ set_default_value = ground (arith, free, same) in
      rw (same, better-none (action_candidate p op.action op.value))
        (ap (λ t. if ch.holds row e then t else first_text more)
          (action_candidate_text p op.action op.value (first_text more) set))
  first_text-operation_branches p e (op ∷ other ∷ rest) more h _ = absurd (ground arith)

  module _ (b : String) (known : field_value row "is_direct" ≡ some b) (truth : IsTruth b) where
    first_text-filter :
        (f : FilterDefinition) (more : List CaseBranch)
        → IsPlain d f
        → first_text (operation_branches d (conditions_sql f.conditions) f.operations ++ more)
          ≡ candidate_text (filter_candidate (same_regex ch row) row d f) (first_text more)
    first_text-filter f more (free, (one, comparable)) =
        first_text-operation_branches f.priority (conditions_sql f.conditions)
          (filter (writes d) f.operations) more one (filter-writes d f.operations free)
        ∙ rw
            (
              holds-conditions_sql ch row b known truth f.conditions comparable,
              ← operations_candidate-filter f.priority d f.operations,
            )
            (sym (candidate_text-if (evaluate_conditions (same_regex ch row) f.conditions row) _ _))

    total-IsBelow :
        (p : ℕ) (fs : List FilterDefinition)
        → All (λ g. g.priority < p) fs
        → IsBelow p (total (same_regex ch row) row d fs)
    unfolding total
    total-IsBelow p [] _ = tt
    total-IsBelow p (g ∷ rest) (h, hs) =
        better-IsBelow p _ _
          (HasPriority-IsBelow p g.priority _
            (filter_candidate-HasPriority (same_regex ch row) row d g) h)
          (total-IsBelow p rest hs)

    first_text-filter_branches :
        (fs : List FilterDefinition)
        → IsDescending fs
        → All (IsPlain d) fs
        → first_text (filter_branches d fs)
          ≡ column_text (value_of (total (same_regex ch row) row d fs))
    unfolding total
    first_text-filter_branches [] _ _ = refl
    first_text-filter_branches (f ∷ rest) (below, descending) (plain, plains) =
        first_text-filter f _ plain
        ∙ ap (candidate_text (filter_candidate (same_regex ch row) row d f))
            (first_text-filter_branches rest descending plains)
        ∙ sym (
            candidate_text-better f.priority _ _
              (filter_candidate-HasPriority (same_regex ch row) row d f)
              (total-IsBelow f.priority rest below))

    -- For a row of ClickHouse, the CASE expression that the compiler writes for a custom dimension
    -- gives the value that evaluateFilters gives the dimension for the same field values, '' where
    -- that is null or missing. The compiler is taken to return, and some enabled filter to write
    -- the dimension; the enabled filters have different priorities, each sets the dimension at
    -- most once and sets no default for it, and their conditions compare is_direct with 'true' or
    -- 'false' only, which is what the row has there; RegExp is taken to agree with match().
    pub case_text-compile_filters_to_sql :
        (compute_filter_version : List FilterDefinition → String) (filters : List FilterDefinition)
        (out : CompiledFilters)
        → is_in custom_dimensions d ≡ true
        → any (targets d) (filter (λ f. f.enabled) filters) ≡ true
        → IsDistinct (filter (λ f. f.enabled) filters)
        → All (IsPlain d) (filter (λ f. f.enabled) filters)
        → compile_filters_to_sql compute_filter_version filters ≡ some out
        → (c : Case) × ((get out.set_clauses d ≡ some c)
            × (ch.case_text row c
                ≡ column_text (get (evaluate_filters (same_regex ch row) row filters) d)))
    unfolding compile_filters_to_sql evaluate_filters
    case_text-compile_filters_to_sql version filters out custom targeted distinct plain h =
        let (table, (h1, h2)) = some_of_bind (group_filters [] (sorted_enabled filters)) _ out h in
        let (customs, (h3, h4)) = some_of_bind (custom_clauses table custom_dimensions) _ out h2 in
        let (standards, (h5, h6)) = some_of_bind (standard_clauses table) _ out h4 in
        let sorted = sorted_enabled filters in
        let (first, (rest, some_branch)) =
          nonempty (filter_branches d sorted) (
            is_nonempty-filter_branches d sorted ∙ any-sort_by_priority (targets d) _ ∙ targeted) in
        let found = branches_of-group_filters table sorted d h1 in
        let (c, (at, built)) =
          get-custom_clauses table d first rest custom_dimensions customs (found ∙ some_branch)
            custom h3 in
        let shown = ap (λ (o : CompiledFilters). get o.set_clauses d) (some_inj _ out h6) in
        let plains = All-sort_by_priority (IsPlain d) _ plain in
        (
          c,
          (
            sym shown ∙ get-append customs standards d c at,
            case_text-build_case_expression (first ∷ rest) c built
                ∙ ap first_text (sym some_branch)
                ∙ first_text-filter_branches sorted (sort_by_priority-IsDescending _ distinct)
                    plains
                ∙ ap column_text (
                    sym (
                      get-run_filters (same_regex ch row) row d sorted
                        (no_defaults d sorted plains))),
          ),
        )
