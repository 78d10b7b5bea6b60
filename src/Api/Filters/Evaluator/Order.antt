-- ===== src/Api/Filters/Evaluator/Order.antt =====
-- Sorting by priority, and the operation that decides a dimension
-- (api/src/filters/lib/filter-evaluator.ts).
use staminads.Common.{
  ℕ, ◌<◌, String, ◌≡◌, refl, sym, ap, ◌∙◌, Bool, ◌&&◌, Option, none, some, List, [], ◌∷◌, arith,
  All, leb, filter, if◌then◌else◌, Bool-cases, inl, inr,
}
use staminads.Common.Dict.{get}
use staminads.Api.Filters.Evaluator.{
  FilterDefinition, FilterOperation, FieldValues, evaluate_conditions, insert_by_priority,
  sort_by_priority, evaluate_filters,
}
use staminads.Api.Filters.Evaluator.Winner.{
  Candidate, better, better_assoc, operation_candidate, operations_candidate, filter_candidate,
  total, NoDefaults, IsNoDefault, get-run_filters, value_of,
}

abbrev pub HasPriority : ℕ → Candidate → Type 0
HasPriority p none = Unit
HasPriority p (some (q, v)) = q ≡ p

better-HasPriority :
    (p : ℕ) (x y : Candidate) → HasPriority p x → HasPriority p y → HasPriority p (better x y)
better-HasPriority p none y h k = k
better-HasPriority p (some x) none h k = h
better-HasPriority p (some (q, v)) (some (r, w)) h k = ground arith

operation-HasPriority :
    (p : ℕ) (d : String) (op : FilterOperation) → HasPriority p (operation_candidate p d op)
operation-HasPriority p d op = ground arith

operations-HasPriority :
    (p : ℕ) (d : String) (ops : List FilterOperation) → HasPriority p (operations_candidate p d ops)
unfolding operations_candidate
operations-HasPriority p d [] = tt
operations-HasPriority p d (op ∷ rest) =
    better-HasPriority p _ _ (operation-HasPriority p d op) (operations-HasPriority p d rest)

-- Candidates of different priorities can change places.
better_comm :
    (p q : ℕ) (x y : Candidate)
    → HasPriority p x
    → HasPriority q y
    → p < q
    → better x y ≡ better y x
better_comm p q none none h k l = refl
better_comm p q none (some y) h k l = refl
better_comm p q (some x) none h k l = refl
better_comm p q (some (r, v)) (some (s, w)) h k l = ground arith

module _ (regex_test : String → String → Option Bool) (fields : FieldValues) (d : String) where
  pub filter_candidate-HasPriority :
      (f : FilterDefinition) → HasPriority f.priority (filter_candidate regex_test fields d f)
  filter_candidate-HasPriority f =
      elim (Bool-cases (evaluate_conditions regex_test f.conditions fields)) [
        | inl matches ↦ rw matches (operations-HasPriority f.priority d f.operations)
        | inr fails ↦ rw fails tt
      ]

  total-insert_by_priority :
      (f : FilterDefinition) (fs : List FilterDefinition)
      → total regex_test fields d (insert_by_priority f fs)
        ≡ better (filter_candidate regex_test fields d f) (total regex_test fields d fs)
  unfolding insert_by_priority total
  total-insert_by_priority f [] = refl
  total-insert_by_priority f (g ∷ rest) = elim (Bool-cases (leb g.priority f.priority)) [
    | inl first ↦ rw first
    | inr later ↦
        let x = filter_candidate regex_test fields d f in
        let y = filter_candidate regex_test fields d g in
        let z = total regex_test fields d rest in
        let swapped : better x y ≡ better y x =
          better_comm f.priority g.priority x y (filter_candidate-HasPriority f)
            (filter_candidate-HasPriority g) (ground arith) in
        rw later (
          ap (better y) (total-insert_by_priority f rest)
          ∙ sym (better_assoc y x z)
          ∙ ap (λ c. better c z) (sym swapped)
          ∙ better_assoc x y z)
  ]

  total-sort_by_priority :
      (fs : List FilterDefinition)
      → total regex_test fields d (sort_by_priority fs) ≡ total regex_test fields d fs
  unfolding sort_by_priority total
  total-sort_by_priority [] = refl
  total-sort_by_priority (f ∷ rest) =
      total-insert_by_priority f (sort_by_priority rest)
      ∙ ap (better (filter_candidate regex_test fields d f)) (total-sort_by_priority rest)

  insert_by_priority-NoDefaults :
      (f : FilterDefinition) (fs : List FilterDefinition)
      → All (IsNoDefault d) f.operations
      → NoDefaults regex_test fields d fs
      → NoDefaults regex_test fields d (insert_by_priority f fs)
  unfolding insert_by_priority
  insert_by_priority-NoDefaults f [] h _ = (h, tt)
  insert_by_priority-NoDefaults f (g ∷ rest) h (k, ks) =
      elim (Bool-cases (leb g.priority f.priority)) [
        | inl first ↦ rw first (h, (k, ks))
        | inr later ↦ rw later (k, insert_by_priority-NoDefaults f rest h ks)
      ]

  pub sort_by_priority-NoDefaults :
      (fs : List FilterDefinition)
      → NoDefaults regex_test fields d fs
      → NoDefaults regex_test fields d (sort_by_priority fs)
  unfolding sort_by_priority
  sort_by_priority-NoDefaults [] _ = tt
  sort_by_priority-NoDefaults (f ∷ rest) (h, hs) =
      insert_by_priority-NoDefaults f _ h (sort_by_priority-NoDefaults rest hs)

  filter-NoDefaults :
      (p : FilterDefinition → Bool) (fs : List FilterDefinition)
      → NoDefaults regex_test fields d fs
      → NoDefaults regex_test fields d (filter p fs)
  filter-NoDefaults p [] _ = tt
  filter-NoDefaults p (f ∷ rest) (h, hs) = elim (Bool-cases (p f)) [
    | inl keep ↦ rw keep (h, filter-NoDefaults p rest hs)
    | inr drop ↦ rw drop (filter-NoDefaults p rest hs)
  ]

  -- The best candidate for `d` among the filters in the order of the workspace's settings, where
  -- a filter counts if it is enabled and its conditions hold.
  unfoldable pub winner : List FilterDefinition → Candidate
  winner [] = none
  winner (f ∷ rest) =
      better
        (if f.enabled && evaluate_conditions regex_test f.conditions fields
          then operations_candidate f.priority d f.operations
          else none)
        (winner rest)

  total-filter_enabled :
      (fs : List FilterDefinition)
      → total regex_test fields d (filter (λ f. f.enabled) fs) ≡ winner fs
  unfolding total winner
  total-filter_enabled [] = refl
  total-filter_enabled (f ∷ rest) = elim (Bool-cases f.enabled) [
    | inl on ↦
        rw on (ap (better (filter_candidate regex_test fields d f)) (total-filter_enabled rest))
    | inr off ↦ rw off (total-filter_enabled rest)
  ]

  -- A dimension that no operation sets a default for gets the value of the set_value or unset_value
  -- operation of highest priority among the enabled filters whose conditions hold, and of those
  -- with the same priority the last one in the order of the settings; without such an operation
  -- it is not in the result.
  pub get-evaluate_filters :
      (filters : List FilterDefinition)
      → NoDefaults regex_test fields d filters
      → get (evaluate_filters regex_test fields filters) d ≡ value_of (winner filters)
  unfolding evaluate_filters
  get-evaluate_filters filters free =
      let enabled = filter (λ (f : FilterDefinition). f.enabled) filters in
      get-run_filters regex_test fields d (sort_by_priority enabled)
        (sort_by_priority-NoDefaults enabled (filter-NoDefaults _ filters free))
      ∙ ap value_of (total-sort_by_priority enabled ∙ total-filter_enabled filters)
