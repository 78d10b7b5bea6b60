-- ===== src/Sdk/SessionState/PageNumbers.antt =====
-- Page numbers of a session (getNextPageNumber of sdk/src/core/session-state.ts).
use staminads.Common.{ℕ, suc, ◌≤◌, ◌<◌, List, [], ◌∷◌, ◌++◌, arith, All, modify, ltb, if◌then◌else◌}
use staminads.Sdk.SessionState.{GoalAction, Action, pageview, goal, page_number, max_page_number}

pub max_page_number-ge : (acc : ℕ) (actions : List Action) → acc ≤ max_page_number acc actions
unfolding max_page_number
max_page_number-ge acc [] = omega arith
max_page_number-ge acc (a ∷ rest) =
    ground (arith, max_page_number-ge (if ltb acc (page_number a) then page_number a else acc) rest)

-- Every action's number is at most the maximum that the loop finds.
pub max_page_number-All :
    (acc : ℕ) (actions : List Action)
    → All (λ a. page_number a ≤ max_page_number acc actions) actions
unfolding max_page_number
max_page_number-All acc [] = tt
max_page_number-All acc (a ∷ rest) =
    let next = if ltb acc (page_number a) then page_number a else acc in
    (ground (arith, max_page_number-ge next rest), max_page_number-All next rest)

-- The pageviews' numbers grow along the list, and all pass `low`.
abbrev pub IsIncreasing : ℕ → List Action → Type 0
IsIncreasing low [] = Unit
IsIncreasing low (pageview p ∷ rest) = (low < p.page_number) × IsIncreasing p.page_number rest
IsIncreasing low (goal g ∷ rest) = IsIncreasing low rest

-- A change of an action that keeps its kind and its number.
abbrev pub KeepsNumber : (Action → Action) → Action → Type 0
KeepsNumber f a =
    (low : ℕ) (rest : List Action) → IsIncreasing low (a ∷ rest) → IsIncreasing low (f a ∷ rest)

pub IsIncreasing-push_pageview :
    (low : ℕ) (actions : List Action) (a : Action) (n : ℕ)
    → IsIncreasing low actions
    → All (λ b. page_number b ≤ n) actions
    → low ≤ n
    → IsIncreasing n (a ∷ [])
    → IsIncreasing low (actions ++ a ∷ [])
IsIncreasing-push_pageview low [] (pageview p) n _ _ h k = (omega arith, tt)
IsIncreasing-push_pageview low [] (goal g) n _ _ h k = tt
IsIncreasing-push_pageview low (pageview p ∷ rest) a n (up, inc) (b, bs) h k =
    (up, IsIncreasing-push_pageview p.page_number rest a n inc bs b k)
IsIncreasing-push_pageview low (goal g ∷ rest) a n inc (b, bs) h k =
    IsIncreasing-push_pageview low rest a n inc bs h k

pub IsIncreasing-push_goal :
    (low : ℕ) (actions : List Action) (g : GoalAction)
    → IsIncreasing low actions
    → IsIncreasing low (actions ++ goal g ∷ [])
IsIncreasing-push_goal low [] g _ = tt
IsIncreasing-push_goal low (pageview p ∷ rest) g (up, inc) =
    (up, IsIncreasing-push_goal p.page_number rest g inc)
IsIncreasing-push_goal low (goal _ ∷ rest) g inc = IsIncreasing-push_goal low rest g inc

pub IsIncreasing-modify :
    (low : ℕ) (actions : List Action) (i : ℕ) (f : Action → Action)
    → ((a : Action) → KeepsNumber f a)
    → IsIncreasing low actions
    → IsIncreasing low (modify actions i f)
IsIncreasing-modify low [] i f keep inc = tt
IsIncreasing-modify low (a ∷ rest) ℕ.zero f keep inc = keep a low rest inc
IsIncreasing-modify low (pageview p ∷ rest) (suc i) f keep (up, inc) =
    (up, IsIncreasing-modify p.page_number rest i f keep inc)
IsIncreasing-modify low (goal g ∷ rest) (suc i) f keep inc =
    IsIncreasing-modify low rest i f keep inc
