-- ===== src/Api/Filters/Compiler/Cases.antt =====
-- Which branches the CASE expression of a custom dimension has
-- (api/src/filters/lib/filter-compiler.ts).
use staminads.Common.{
  String, ◌≡◌, refl, sym, ap, ◌∙◌, Bool, true, false, ◌||◌, some, List, [], ◌∷◌, ◌++◌, map, arith,
  any, filter, str_eq, eq_iff, if◌then◌else◌, some_of_bind, some_of_if, some_inj, Bool-cases, inl,
  inr,
}
use staminads.Common.Dict.{Dict, get, get-put}
use staminads.Api.Filters.Evaluator.{FilterCondition, FilterOperation, FilterDefinition}
use staminads.Api.Filters.Compiler.Sql.{Expression, always, both, Case}
use staminads.Api.Filters.Compiler.{
  validate_source_field, condition_sql, compile_condition, join_conditions, compile_conditions,
  CaseBranch, build_case_expression, branches_of, DimensionBranches, push_branch,
  validate_dimension, group_operations, group_filters, custom_clause, custom_clauses, is_in,
}

-- What compileConditions gives where it does not throw.
abbrev pub joined : FilterCondition → List FilterCondition → Expression
joined c [] = condition_sql c
joined c (d ∷ rest) = both (condition_sql c) (joined d rest)

abbrev pub conditions_sql : List FilterCondition → Expression
conditions_sql [] = always
conditions_sql (c ∷ rest) = joined c rest

compile_condition_lem :
    (c : FilterCondition) (e : Expression) → compile_condition c ≡ some e → condition_sql c ≡ e
unfolding compile_condition
compile_condition_lem c e h = some_inj _ e (some_of_if (validate_source_field c.field) _ e h).1

join_conditions_lem :
    (c : FilterCondition) (rest : List FilterCondition) (e : Expression)
    → join_conditions c rest ≡ some e
    → joined c rest ≡ e
join_conditions_lem c [] e h = compile_condition_lem c e h
join_conditions_lem c (d ∷ rest) e h =
    let (first, (h1, h2)) = some_of_bind (compile_condition c) _ e h in
    let (others, (h3, h4)) = some_of_bind (join_conditions d rest) _ e h2 in
    let e1 = compile_condition_lem c first h1 in
    let e2 = join_conditions_lem d rest others h3 in
    ap (λ x. both x (joined d rest)) e1 ∙ ap (both first) e2 ∙ some_inj _ e h4

pub compile_conditions_lem :
    (cs : List FilterCondition) (e : Expression)
    → compile_conditions cs ≡ some e
    → conditions_sql cs ≡ e
unfolding compile_conditions
compile_conditions_lem [] e h = some_inj always e h
compile_conditions_lem (c ∷ rest) e h = join_conditions_lem c rest e h

abbrev pub branch : Expression → FilterOperation → CaseBranch
branch condition op = record { condition = condition; action = op.action; value = op.value }

abbrev pub writes : String → FilterOperation → Bool
writes d op = str_eq op.dimension d

abbrev pub operation_branches : String → Expression → List FilterOperation → List CaseBranch
operation_branches d condition ops = map (branch condition) (filter (writes d) ops)

-- The branches for `d` of filters in the order of the list.
abbrev pub filter_branches : String → List FilterDefinition → List CaseBranch
filter_branches d [] = []
filter_branches d (f ∷ rest) =
    operation_branches d (conditions_sql f.conditions) f.operations ++ filter_branches d rest

append_assoc : (xs ys zs : List CaseBranch) → ((xs ++ ys) ++ zs) ≡ (xs ++ (ys ++ zs))
append_assoc [] ys zs = refl
append_assoc (x ∷ xs) ys zs = ap (λ r. x ∷ r) (append_assoc xs ys zs)

append_nil : (xs : List CaseBranch) → (xs ++ []) ≡ xs
append_nil [] = refl
append_nil (x ∷ xs) = ap (λ r. x ∷ r) (append_nil xs)

branches_of-push_branch :
    (table : DimensionBranches) (e : Expression) (op : FilterOperation) (d : String)
    → branches_of (get (push_branch table e op) d) ≡ (
        if writes d op
        then branches_of (get table d) ++ (branch e op ∷ [])
        else branches_of (get table d))
branches_of-push_branch table e op d = rw get-put (elim (Bool-cases (str_eq op.dimension d)) [
  | inl same ↦ let k : op.dimension ≡ d = (eq_iff op.dimension d).0 same in rw (same, k) refl
  | inr other ↦ rw other refl
])

group_operations_lem :
    (table out : DimensionBranches) (e : Expression) (ops : List FilterOperation) (d : String)
    → group_operations table e ops ≡ some out
    → branches_of (get out d) ≡ (branches_of (get table d) ++ operation_branches d e ops)
unfolding group_operations
group_operations_lem table out e [] d h =
    rw (← some_inj table out h) (sym (append_nil (branches_of (get table d))))
group_operations_lem table out e (op ∷ rest) d h =
    let (ok, more) = some_of_if (validate_dimension op.dimension) _ out h in
    let ih = group_operations_lem (push_branch table e op) out e rest d more in
    elim (Bool-cases (writes d op)) [
      | inl same ↦ rw same (
          ih
          ∙ rw (branches_of-push_branch table e op d, same)
              (append_assoc (branches_of (get table d)) (branch e op ∷ []) _))
      | inr other ↦ rw other (ih ∙ rw (branches_of-push_branch table e op d, other) refl)
    ]

group_filters_lem :
    (table out : DimensionBranches) (fs : List FilterDefinition) (d : String)
    → group_filters table fs ≡ some out
    → branches_of (get out d) ≡ (branches_of (get table d) ++ filter_branches d fs)
unfolding group_filters
group_filters_lem table out [] d h =
    rw (← some_inj table out h) (sym (append_nil (branches_of (get table d))))
group_filters_lem table out (f ∷ rest) d h =
    let (condition, (h1, h2)) = some_of_bind (compile_conditions f.conditions) _ out h in
    let (grouped, (h3, h4)) =
      some_of_bind (group_operations table condition f.operations) _ out h2 in
    let here = group_operations_lem table grouped condition f.operations d h3 in
    let same = compile_conditions_lem f.conditions condition h1 in
    group_filters_lem grouped out rest d h4
    ∙ rw (here, same)
        (append_assoc (branches_of (get table d)) (operation_branches d condition f.operations) _)

-- The grouped branches of a dimension are those of the filters, in their order.
pub branches_of-group_filters :
    (out : DimensionBranches) (fs : List FilterDefinition) (d : String)
    → group_filters [] fs ≡ some out
    → branches_of (get out d) ≡ filter_branches d fs
unfolding get
branches_of-group_filters out fs d h = group_filters_lem [] out fs d h

abbrev pub is_nonempty : List CaseBranch → Bool
is_nonempty [] = false
is_nonempty (b ∷ bs) = true

pub nonempty :
    (bs : List CaseBranch)
    → is_nonempty bs ≡ true
    → (b : CaseBranch) × ((rest : List CaseBranch) × (bs ≡ b ∷ rest))
nonempty [] h = absurd (ground arith)
nonempty (b ∷ bs) h = (b, (bs, refl))

is_nonempty-append :
    (xs ys : List CaseBranch) → is_nonempty (xs ++ ys) ≡ (is_nonempty xs || is_nonempty ys)
is_nonempty-append [] ys = refl
is_nonempty-append (x ∷ xs) ys = refl

is_nonempty-operation_branches :
    (d : String) (e : Expression) (ops : List FilterOperation)
    → is_nonempty (operation_branches d e ops) ≡ any (writes d) ops
is_nonempty-operation_branches d e [] = refl
is_nonempty-operation_branches d e (op ∷ rest) = elim (Bool-cases (writes d op)) [
  | inl same ↦ rw same refl
  | inr other ↦ rw other (is_nonempty-operation_branches d e rest)
]

pub is_nonempty-filter_branches :
    (d : String) (fs : List FilterDefinition)
    → is_nonempty (filter_branches d fs) ≡ any (λ f. any (writes d) f.operations) fs
is_nonempty-filter_branches d [] = refl
is_nonempty-filter_branches d (f ∷ rest) =
    is_nonempty-append (operation_branches d (conditions_sql f.conditions) f.operations) _
    ∙ rw
        (
          is_nonempty-operation_branches d (conditions_sql f.conditions) f.operations,
          is_nonempty-filter_branches d rest,
        )
        refl

-- The clause of a custom dimension that has branches.
module _ (table : DimensionBranches) (d : String) (b : CaseBranch) (bs : List CaseBranch) where
  custom_clause_other :
      (e : String) (branches : List CaseBranch) (clause others : Dict Case)
      → str_eq e d ≡ false
      → custom_clause e branches ≡ some clause
      → get (clause ++ others) d ≡ get others d
  unfolding get
  custom_clause_other e [] clause others ne h = rw (← some_inj [] clause h) refl
  custom_clause_other e (c ∷ rest) clause others ne h =
      let (expression, (h1, h2)) = some_of_bind (build_case_expression (c ∷ rest)) _ clause h in
      rw (← some_inj _ clause h2) (rw ne refl)

  custom_clause_self :
      (e : String) (clause others : Dict Case)
      → str_eq e d ≡ true
      → custom_clause e (b ∷ bs) ≡ some clause
      → (c : Case) × ((get (clause ++ others) d ≡ some c)
          × (build_case_expression (b ∷ bs) ≡ some c))
  unfolding get
  custom_clause_self e clause others eq h =
      let (expression, (h1, h2)) = some_of_bind (build_case_expression (b ∷ bs)) _ clause h in
      (expression, (rw (← some_inj _ clause h2) (rw eq refl), h1))

  pub get-custom_clauses :
      (dims : List String) (clauses : Dict Case)
      → branches_of (get table d) ≡ b ∷ bs
      → is_in dims d ≡ true
      → custom_clauses table dims ≡ some clauses
      → (c : Case) × ((get clauses d ≡ some c) × (build_case_expression (b ∷ bs) ≡ some c))
  unfolding get
  get-custom_clauses [] clauses found member h = absurd (ground arith)
  get-custom_clauses (e ∷ rest) clauses found member h =
      let (clause, (h1, h2)) =
        some_of_bind (custom_clause e (branches_of (get table e))) _ clauses h in
      let (others, (h3, h4)) = some_of_bind (custom_clauses table rest) _ clauses h2 in
      let whole = some_inj (clause ++ others) clauses h4 in
      elim (Bool-cases (str_eq e d)) [
        | inl same ↦
            let k : e ≡ d = (eq_iff e d).0 same in
            let shown =
              ap (custom_clause e) (sym (ap (λ x. branches_of (get table x)) k ∙ found)) in
            let (c, (at, built)) = custom_clause_self e clause others same (shown ∙ h1) in
            (c, (ap (λ cs. get cs d) (sym whole) ∙ at, built))
        | inr other ↦
            let (c, (at, built)) = get-custom_clauses rest others found (ground arith) h3 in
            (
              c,
              (
                ap (λ cs. get cs d) (sym whole)
                    ∙ custom_clause_other e _ clause others other h1
                    ∙ at,
                built,
              ),
            )
      ]
