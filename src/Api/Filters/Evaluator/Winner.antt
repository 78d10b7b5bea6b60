-- ===== src/Api/Filters/Evaluator/Winner.antt =====
-- Which operation decides a dimension in evaluateFilters
-- (api/src/filters/lib/filter-evaluator.ts), described with no sorting and no running state.
use text.Mathlib.TextPositions.{eq_refl}
use staminads.Common.{
  ℕ, String, ◌≡◌, refl, ◌∙◌, Bool, false, Option, none, some, List, [], ◌∷◌, arith, All, ltb,
  str_eq, eq_iff, if◌then◌else◌, Bool-cases, inl, inr,
}
use staminads.Common.Dict.{get, get-put}
use staminads.Api.Filters.Evaluator.{
  FilterAction, set_value, unset_value, set_default_value, FilterOperation, FilterDefinition, Value,
  null, is_unset, FieldValues, evaluate_conditions, Progress, given_value, is_outranked, write,
  apply_action, apply_operation, apply_operations, run_filters,
}

-- A value for a dimension, with the priority of the filter that it comes from.
abbrev pub Candidate : Type 0
Candidate = Option (ℕ × Value)

-- The candidate of higher priority; of two with the same priority, the later one.
abbrev pub better : Candidate → Candidate → Candidate
better none y = y
better (some x) none = some x
better (some (p, v)) (some (q, w)) = if ltb q p then some (p, v) else some (q, w)

pub better_assoc : (x y z : Candidate) → better (better x y) z ≡ better x (better y z)
better_assoc none y z = refl
better_assoc (some x) none z = refl
better_assoc (some x) (some y) none = ground arith
better_assoc (some (p, u)) (some (q, v)) (some (r, w)) = ground arith

abbrev pub action_candidate : ℕ → FilterAction → Option String → Candidate
action_candidate priority set_value value = some (priority, given_value value)
action_candidate priority unset_value value = some (priority, null)
action_candidate priority set_default_value value = none

abbrev pub operation_candidate : ℕ → String → FilterOperation → Candidate
operation_candidate priority d op =
    if str_eq op.dimension d then action_candidate priority op.action op.value else none

unfoldable pub operations_candidate : ℕ → String → List FilterOperation → Candidate
operations_candidate priority d [] = none
operations_candidate priority d (op ∷ rest) =
    better (operation_candidate priority d op) (operations_candidate priority d rest)

-- The operation does not set a default for `d`.
abbrev pub IsNoDefault : String → FilterOperation → Type 0
IsNoDefault d op = (op.action ≡ set_default_value) → str_eq op.dimension d ≡ false

abbrev priority_of : Candidate → Option ℕ
priority_of none = none
priority_of (some (p, v)) = some p

abbrev pub value_of : Candidate → Option Value
value_of none = none
value_of (some (p, v)) = some v

-- The state of the loop at the dimension `d`, when the best candidate so far is `c`.
record Agrees (d : String) (acc : Progress) (c : Candidate) : Type 0 where
  priority : get acc.dimension_priorities d ≡ priority_of c
  value : get acc.result d ≡ value_of c

write_same :
    (d : String) (p : ℕ) (v : Value) (acc : Progress) (c : Candidate)
    → Agrees d acc c
    → Agrees d (write p d v acc) (better c (some (p, v)))
write_same d p v acc none h = record {
  priority = rw h.priority (rw get-put (rw (eq_refl d)));
  value = rw h.priority (rw get-put (rw (eq_refl d)));
}
write_same d p v acc (some (q, w)) h = elim (Bool-cases (ltb p q)) [
  | inl lower ↦ record {
    priority = rw (h.priority, lower) h.priority;
    value = rw (h.priority, lower) h.value;
  }
  | inr enough ↦ record {
    priority = rw (h.priority, enough) (rw get-put (rw (eq_refl d)));
    value = rw (h.priority, enough) (rw get-put (rw (eq_refl d)));
  }
]

write_other :
    (d k : String) (p : ℕ) (v : Value) (acc : Progress)
    → str_eq k d ≡ false
    → (get (write p k v acc).dimension_priorities d ≡ get acc.dimension_priorities d)
      × (get (write p k v acc).result d ≡ get acc.result d)
write_other d k p v acc e = elim (Bool-cases (is_outranked p (get acc.dimension_priorities k))) [
  | inl skip ↦ rw skip (refl, refl)
  | inr go ↦ rw go (rw get-put (rw e refl), rw get-put (rw e refl))
]

pub better-none : (c : Candidate) → better c none ≡ c
better-none none = refl
better-none (some x) = refl

Agrees-other :
    (d : String) (acc acc' : Progress) (c : Candidate)
    → Agrees d acc c
    → (get acc'.dimension_priorities d ≡ get acc.dimension_priorities d)
      × (get acc'.result d ≡ get acc.result d)
    → Agrees d acc' (better c none)
Agrees-other d acc acc' c h (p, v) =
    rw (better-none c) (record { priority = p ∙ h.priority; value = v ∙ h.value })

default_other :
    (d k : String) (v : Option String) (p : ℕ) (acc : Progress)
    → str_eq k d ≡ false
    → (get (apply_action set_default_value p k v acc).dimension_priorities d
        ≡ get acc.dimension_priorities d)
      × (get (apply_action set_default_value p k v acc).result d ≡ get acc.result d)
default_other d k v p acc e = elim (Bool-cases (is_unset (get acc.result k))) [
  | inl fill ↦ rw fill (refl, rw get-put (rw e refl))
  | inr keep ↦ rw keep (refl, refl)
]

action-Agrees :
    (d k : String) (a : FilterAction) (v : Option String) (p : ℕ) (acc : Progress) (c : Candidate)
    → (a ≡ set_default_value → str_eq k d ≡ false)
    → Agrees d acc c
    → Agrees d
        (apply_action a p k v acc)
        (better c (if str_eq k d then action_candidate p a v else none))
action-Agrees d k set_value v p acc c free h = elim (Bool-cases (str_eq k d)) [
  | inl same ↦
      let e : k ≡ d = (eq_iff k d).0 same in rw (same, e) (write_same d p (given_value v) acc c h)
  | inr other ↦ rw other (Agrees-other d acc _ c h (write_other d k p (given_value v) acc other))
]
action-Agrees d k unset_value v p acc c free h = elim (Bool-cases (str_eq k d)) [
  | inl same ↦ let e : k ≡ d = (eq_iff k d).0 same in rw (same, e) (write_same d p null acc c h)
  | inr other ↦ rw other (Agrees-other d acc _ c h (write_other d k p null acc other))
]
action-Agrees d k set_default_value v p acc c free h =
    rw (free refl) (Agrees-other d acc _ c h (default_other d k v p acc (free refl)))

operations-Agrees :
    (d : String) (p : ℕ) (acc : Progress) (ops : List FilterOperation) (c : Candidate)
    → All (IsNoDefault d) ops
    → Agrees d acc c
    → Agrees d (apply_operations p acc ops) (better c (operations_candidate p d ops))
unfolding apply_operations apply_operation operations_candidate
operations-Agrees d p acc [] c _ h = rw (better-none c) h
operations-Agrees d p acc (op ∷ rest) c (free, frees) h =
    rw (← better_assoc c (operation_candidate p d op) (operations_candidate p d rest)) (
      operations-Agrees d p (apply_operation p acc op) rest _ frees
        (action-Agrees d op.dimension op.action op.value p acc c free h))

module _ (regex_test : String → String → Option Bool) (fields : FieldValues) (d : String) where
  -- The candidate of one filter, whether enabled or not.
  abbrev pub filter_candidate : FilterDefinition → Candidate
  filter_candidate f =
      if evaluate_conditions regex_test f.conditions fields
      then operations_candidate f.priority d f.operations
      else none

  unfoldable pub total : List FilterDefinition → Candidate
  total [] = none
  total (f ∷ rest) = better (filter_candidate f) (total rest)

  abbrev pub NoDefaults : List FilterDefinition → Type 0
  NoDefaults = All (λ f. All (IsNoDefault d) f.operations)

  filter-Agrees :
      (acc : Progress) (f : FilterDefinition) (c : Candidate)
      → All (IsNoDefault d) f.operations
      → Agrees d acc c
      → Agrees d
          (if evaluate_conditions regex_test f.conditions fields
            then apply_operations f.priority acc f.operations
            else acc)
          (better c (filter_candidate f))
  filter-Agrees acc f c free h =
      elim (Bool-cases (evaluate_conditions regex_test f.conditions fields)) [
        | inl matches ↦ rw matches (operations-Agrees d f.priority acc f.operations c free h)
        | inr fails ↦ rw fails (rw (better-none c) h)
      ]

  run-Agrees :
      (fs : List FilterDefinition) (acc : Progress) (c : Candidate)
      → NoDefaults fs
      → Agrees d acc c
      → Agrees d (run_filters regex_test fields acc fs) (better c (total fs))
  unfolding run_filters total
  run-Agrees [] acc c _ h = rw (better-none c) h
  run-Agrees (f ∷ rest) acc c (free, frees) h =
      rw (← better_assoc c (filter_candidate f) (total rest))
        (run-Agrees rest _ _ frees (filter-Agrees acc f c free h))

  pub get-run_filters :
      (fs : List FilterDefinition)
      → NoDefaults fs
      → get
          (run_filters regex_test fields
            (record { result = []; dimension_priorities = [] })
            fs).result
          d
        ≡ value_of (total fs)
  unfolding get
  get-run_filters fs free =
      (run-Agrees fs _ none free (record { priority = refl; value = refl })).value
