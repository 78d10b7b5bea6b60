-- ===== src/Api/Filters/Compiler/Candidates.antt =====
-- The operations of a filter as candidates for a dimension, in the order of the CASE expression
-- (api/src/filters/lib/filter-compiler.ts, api/src/filters/lib/filter-evaluator.ts).
use staminads.Common.{
  ℕ, ◌<◌, String, ◌≡◌, ◌≢◌, refl, sym, ap, ◌∙◌, Bool, true, false, Option, none, some, List, [],
  ◌∷◌, arith, All, filter, if◌then◌else◌, Bool-cases, inl, inr, lt→ltb,
}
use staminads.Api.Filters.Evaluator.{
  FilterAction, set_value, unset_value, set_default_value, FilterOperation, Value, str, or_empty,
}
use staminads.Api.Filters.Evaluator.Winner.{
  Candidate, better, action_candidate, operation_candidate, operations_candidate, IsNoDefault,
  value_of,
}
use staminads.Api.Filters.Compiler.Cases.{writes}
use staminads.Api.Filters.Evaluator.Order.{HasPriority}

-- The text that a stored column has for a result of evaluateFilters.
abbrev pub column_text : Option Value → String
column_text (some (str v)) = v
column_text _ = ""

abbrev pub action_text : FilterAction → Option String → String
action_text set_value value = or_empty value
action_text unset_value value = ""
action_text set_default_value value = or_empty value

pub operations_candidate-filter :
    (p : ℕ) (d : String) (ops : List FilterOperation)
    → operations_candidate p d ops ≡ operations_candidate p d (filter (writes d) ops)
unfolding operations_candidate
operations_candidate-filter p d [] = refl
operations_candidate-filter p d (op ∷ rest) = elim (Bool-cases (writes d op)) [
  | inl same ↦
      let kept : filter (writes d) (op ∷ rest) ≡ op ∷ filter (writes d) rest = rw same refl in
      ap (better (operation_candidate p d op)) (operations_candidate-filter p d rest)
      ∙ ap (operations_candidate p d) (sym kept)
  | inr other ↦ rw other (operations_candidate-filter p d rest)
]

pub filter-writes :
    (d : String) (ops : List FilterOperation)
    → All (IsNoDefault d) ops
    → All (λ op. IsNoDefault d op × (writes d op ≡ true)) (filter (writes d) ops)
filter-writes d [] _ = tt
filter-writes d (op ∷ rest) (h, hs) = elim (Bool-cases (writes d op)) [
  | inl same ↦ rw same ((h, same), filter-writes d rest hs)
  | inr other ↦ rw other (filter-writes d rest hs)
]

-- A candidate's text, or the text of what follows.
abbrev pub candidate_text : Candidate → String → String
candidate_text none other = other
candidate_text (some (p, v)) other = column_text (some v)

pub action_candidate_text :
    (p : ℕ) (a : FilterAction) (value : Option String) (other : String)
    → a ≢ set_default_value
    → action_text a value ≡ candidate_text (action_candidate p a value) other
action_candidate_text p set_value none other h = refl
action_candidate_text p set_value (some v) other h = refl
action_candidate_text p unset_value value other h = refl
action_candidate_text p set_default_value value other h = absurd (h refl)

abbrev pub IsBelow : ℕ → Candidate → Type 0
IsBelow p none = Unit
IsBelow p (some (q, v)) = q < p

pub better-IsBelow : (p : ℕ) (x y : Candidate) → IsBelow p x → IsBelow p y → IsBelow p (better x y)
better-IsBelow p none y h k = k
better-IsBelow p (some x) none h k = h
better-IsBelow p (some (q, v)) (some (r, w)) h k = ground arith

pub HasPriority-IsBelow : (p q : ℕ) (x : Candidate) → HasPriority q x → q < p → IsBelow p x
HasPriority-IsBelow p q none h l = tt
HasPriority-IsBelow p q (some (r, v)) h l = omega arith

-- A candidate of higher priority than all that follow decides.
pub candidate_text-better :
    (p : ℕ) (x y : Candidate)
    → HasPriority p x
    → IsBelow p y
    → column_text (value_of (better x y)) ≡ candidate_text x (column_text (value_of y))
candidate_text-better p none y h k = refl
candidate_text-better p (some (q, v)) none h k = refl
candidate_text-better p (some (q, v)) (some (r, w)) h k = rw (lt→ltb r q (omega arith)) refl

pub candidate_text-if :
    (holds : Bool) (c : Candidate) (other : String)
    → candidate_text (if holds then c else none) other
      ≡ (if holds then candidate_text c other else other)
candidate_text-if true c other = refl
candidate_text-if false c other = refl
