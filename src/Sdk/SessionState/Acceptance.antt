-- ===== src/Sdk/SessionState/Acceptance.antt =====
-- Which of the SDK's payloads (sdk/src/core/session-state.ts) pass the validation of their actions
-- at the server (api/src/events/dto/session-payload.dto.ts).
use Prim.Native.String.{count}
use mathlib.Core.Bool.{and-false}
use staminads.Common.{
  ℕ, zero, suc, ◌≤◌, ◌<◌, String, ◌≡◌, ◌≢◌, refl, ap, true, false, Option, some, List, [], ◌∷◌,
  ◌++◌, arith, All, length, all, leb, str_eq-false, modify, get_elem?, get_elem?-append_left,
  lt_of_get_elem?, le→leb, get_elem?-append_length, inl, inr, Option-cases, Bool-cases,
}
use staminads.Common.Dict.{Dict}
use staminads.Common.Int.{ℤ}
use staminads.Sdk.SessionState.{
  GoalAction, Action, pageview, goal, Instant, SessionState, SessionStateConfig, new, max_actions,
  PayloadOptions, build_payload, add_goal, close_action, raise_scroll, add_pageview, update_scroll,
  finalize_for_unload, finalize_current_page_duration, focus_ms, clamp_percent,
}
use mathlib.Core.Option
use mathlib.Core.Option.{some-injective}
use staminads.Sdk.SessionState.Invariant.{Fits, finalize_current_page_duration-IsValid}
use staminads.Sdk.SessionState.Persistence.{restore-persist}
use staminads.Sdk.SessionState.Lifetime.{
  Reach, Reach-IsValid, Step, set_getter, page, scroll, add, send, unload, reload, Steps, here,
  next,
}
use staminads.Api.Events.PayloadDto.{
  max_path_length, max_goal_name_length, action_ok, actions_ok, value_ok,
}

-- What the page hands to the SDK: texts within the server's lengths, and no negative goal value.
abbrev pub HasFittingInput : Action → Type 0
HasFittingInput (pageview p) = count p.path ≤ max_path_length
HasFittingInput (goal g) =
    (g.name ≢ "")
    × (count g.name ≤ max_goal_name_length)
    × (count g.path ≤ max_path_length)
    × (value_ok g.value ≡ true)

action_ok-Fits : (l : ℕ) (a : Action) → Fits l a → HasFittingInput a → action_ok a ≡ true
unfolding action_ok
action_ok-Fits l (pageview p) f h = ground arith
action_ok-Fits l (goal g) f (name, len, path, value) =
    rw (str_eq-false g.name "" name) (ground arith)

all-action_ok :
    (l : ℕ) (actions : List Action)
    → All (Fits l) actions
    → All HasFittingInput actions
    → all action_ok actions ≡ true
all-action_ok l [] _ _ = refl
all-action_ok l (a ∷ rest) (f, fs) (h, hs) =
    rw (action_ok-Fits l a f h) (all-action_ok l rest fs hs)

-- The actions of every payload that a session builds pass the server's validation, if the page's
-- own texts and goal values do and the browser's clock (Date.now) has never run backwards since the
-- session began, the time of the payload included: then page numbers, scroll depths, the order of
-- the timestamps and the number of actions are never the reason of a refusal. (With a clock that
-- steps back, a page may be left before it was entered, and the server refuses the payload.)
pub build_payload-actions_ok :
    {A : Type 0} (config : SessionStateConfig) (l : ℕ) (s : SessionState) (sdk_version : String)
    (attributes : A) (options : Option PayloadOptions) (t : Instant) (updated_at : ℕ)
    → Reach config l s
    → l ≤ t.now
    → All HasFittingInput (build_payload sdk_version attributes options t updated_at s).1.actions
    → actions_ok (build_payload sdk_version attributes options t updated_at s).1.actions ≡ true
unfolding build_payload actions_ok
build_payload-actions_ok config l s sdk_version attributes options t updated_at r h texts =
    let v = finalize_current_page_duration-IsValid t h (Reach-IsValid config l s r) in
    rw (le→leb _ _ v.bounded) (all-action_ok t.now _ v.fits texts)

-- A goal stays in the list, whatever is called later.
abbrev Has : GoalAction → List Action → Type 0
Has g actions = (i : ℕ) × (get_elem? actions i ≡ some (goal g))

modify-Has :
    (g : GoalAction) (actions : List Action) (i j : ℕ) (f : Action → Action)
    → f (goal g) ≡ goal g
    → get_elem? actions j ≡ some (goal g)
    → get_elem? (modify actions i f) j ≡ some (goal g)
modify-Has g [] i j f keep e = e
modify-Has g (a ∷ rest) zero zero f keep e = cc (ap (λ (o : Option Action). Option.map f o) e)
modify-Has g (a ∷ rest) zero (suc j) f keep e = e
modify-Has g (a ∷ rest) (suc i) zero f keep e = e
modify-Has g (a ∷ rest) (suc i) (suc j) f keep e = modify-Has g rest i j f keep e

append-Has : (g : GoalAction) (actions more : List Action) → Has g actions → Has g (actions ++ more)
append-Has g actions more (i, e) =
    (i, rw (get_elem?-append_left actions more i (lt_of_get_elem? actions i _ e)) e)

finalize-Has :
    (g : GoalAction) (t : Instant) (e : ℕ) (s : SessionState)
    → Has g s.actions
    → Has g (finalize_current_page_duration t e s).actions
unfolding finalize_current_page_duration
finalize-Has g t e s (j, at_) = elim (Option-cases s.current_page_index) [
  | inl gone ↦ rw (gone, finalize_current_page_duration) (j, at_)
  | inr (i, here_) ↦
      rw (here_, finalize_current_page_duration)
        (j, modify-Has g s.actions i j (close_action (focus_ms s t) e) refl at_)
]

add_pageview-Has :
    (g : GoalAction) (path : String) (t : Instant) (s : SessionState)
    → Has g s.actions
    → Has g (add_pageview path t s).actions
unfolding add_pageview
add_pageview-Has g path t s h = elim (Bool-cases (leb max_actions (length s.actions))) [
  | inl full ↦ rw full h
  | inr room ↦ rw room (append-Has g _ _ (finalize-Has g t t.now s h))
]

update_scroll-Has :
    (g : GoalAction) (percent : ℤ) (s : SessionState)
    → Has g s.actions
    → Has g (update_scroll percent s).actions
unfolding update_scroll
update_scroll-Has g percent s (j, at_) = elim (Option-cases s.current_page_index) [
  | inl gone ↦ rw (gone, update_scroll) (j, at_)
  | inr (i, here_) ↦
      rw (here_, update_scroll)
        (j, modify-Has g s.actions i j (raise_scroll (clamp_percent percent)) refl at_)
]

add_goal-Has :
    (g : GoalAction) (name : String) (value : Option ℤ) (properties : Option (Dict String))
    (now : ℕ) (s : SessionState)
    → Has g s.actions
    → Has g (add_goal name value properties now s).0.actions
unfolding add_goal
add_goal-Has g name value properties now s h =
    elim (Bool-cases (leb max_actions (length s.actions))) [
      | inl full ↦ rw full h
      | inr room ↦ rw room (append-Has g s.actions _ h)
    ]

Step-Has :
    (g : GoalAction) {l n : ℕ} {s u : SessionState}
    → Step l s n u
    → Has g s.actions
    → Has g u.actions
unfolding build_payload finalize_for_unload
Step-Has g (set_getter getter) h = h
Step-Has g (page {s} path t _ _) h = add_pageview-Has g path t s h
Step-Has g (scroll {s} percent) h = update_scroll-Has g percent s h
Step-Has g (add {s} name value properties now) h = add_goal-Has g name value properties now s h
Step-Has g (send {s} _ _ _ t _ _ _) h = finalize-Has g t t.now s h
Step-Has g (unload {s} t _ _) h = finalize-Has g t t.now s h
Step-Has g (reload {s} j config item same) h = rw (restore-persist j s (new config) item same) h

Steps-Has :
    (g : GoalAction) {l : ℕ} {s : SessionState} {n : ℕ} {u : SessionState}
    → Steps l s n u
    → Has g s.actions
    → Has g u.actions
Steps-Has g here h = h
Steps-Has g (next r step) h = Step-Has g step (Steps-Has g r h)

all-action_ok_bad :
    (g : GoalAction) (actions : List Action) (i : ℕ)
    → action_ok (goal g) ≡ false
    → get_elem? actions i ≡ some (goal g)
    → all action_ok actions ≡ false
all-action_ok_bad g [] i bad e = ground arith
all-action_ok_bad g (a ∷ rest) zero bad e =
    let same : a ≡ goal g = some-injective _ _ e in rw (same, bad)
all-action_ok_bad g (a ∷ rest) (suc i) bad e = ground (arith, all-action_ok_bad g rest i bad e)

long_name-bad : (g : GoalAction) → max_goal_name_length < count g.name → action_ok (goal g) ≡ false
unfolding action_ok
long_name-bad g h = ground arith

payload-bad :
    {A : Type 0} (g : GoalAction) (s : SessionState) (sdk_version : String) (attributes : A)
    (options : Option PayloadOptions) (t : Instant) (updated_at : ℕ)
    → action_ok (goal g) ≡ false
    → Has g s.actions
    → actions_ok (build_payload sdk_version attributes options t updated_at s).1.actions ≡ false
unfolding build_payload actions_ok
payload-bad g s sdk_version attributes options t updated_at bad h =
    let (i, at_) = finalize-Has g t t.now s h in rw (all-action_ok_bad g _ i bad at_) (and-false _)

add_goal-Has_new :
    (name : String) (value : Option ℤ) (properties : Option (Dict String)) (now : ℕ)
    (s : SessionState)
    → length s.actions < max_actions
    → (g : GoalAction) × (g.name ≡ name) × Has g (add_goal name value properties now s).0.actions
unfolding add_goal
add_goal-Has_new name value properties now s room =
    let open_ : leb max_actions (length s.actions) ≡ false = ground arith in
    rw open_ (_, refl, (length s.actions, get_elem?-append_length s.actions _ []))

-- One goal with a name over the server's limit spoils the session: `add_goal` takes it (there is
-- room for it), and whatever is called afterwards, with a clock that does not run backwards, the
-- server refuses every later payload of the session.
pub add_goal-long_name :
    {A : Type 0} (name : String) (value : Option ℤ) (properties : Option (Dict String)) (now : ℕ)
    (l n : ℕ) (s u : SessionState) (sdk_version : String) (attributes : A)
    (options : Option PayloadOptions) (t : Instant) (updated_at : ℕ)
    → max_goal_name_length < count name
    → length s.actions < max_actions
    → Steps l (add_goal name value properties now s).0 n u
    → actions_ok (build_payload sdk_version attributes options t updated_at u).1.actions ≡ false
add_goal-long_name name value properties now l n s u sdk_version attributes options t updated_at
      long room steps =
    let (g, named, has) = add_goal-Has_new name value properties now s room in
    payload-bad g u sdk_version attributes options t updated_at (long_name-bad g (rw named long))
      (Steps-Has g steps has)
