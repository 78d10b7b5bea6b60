-- ===== src/Sdk/SessionState/Preservation.antt =====
-- The methods of SessionState (sdk/src/core/session-state.ts) and the invariant of
-- Sdk/SessionState/Invariant.antt.
use staminads.Common.{
  ℕ, ◌+◌, ◌-◌, ◌≤◌, ◌<◌, String, ◌≡◌, Option, none, some, List, [], ◌∷◌, ◌++◌, arith, All-append,
  inl, inr, Option-cases, Bool-cases, leb, length, length-append, length-modify,
  get_elem?-append_left, lt_of_get_elem?, get_elem?-append_length,
}
use staminads.Common.Dict.{Dict}
use staminads.Common.Int.{ℤ}
use staminads.Sdk.SessionState.{
  GoalAction, Action, pageview, goal, Instant, SessionState, SessionStateConfig, new, max_actions,
  clamp_percent, new_pageview, push, current_action, finalize_current_page_duration,
  get_next_page_number, max_page_number, add_pageview, update_scroll, add_goal, build_payload,
  finalize_for_unload, PayloadOptions, number_or_one,
}
use staminads.Sdk.SessionState.PageNumbers.{
  IsIncreasing-push_pageview, IsIncreasing-push_goal, max_page_number-All,
}
use staminads.Sdk.SessionState.Invariant.{
  IsValid, IsValid-later, IsCurrent, Fits, finalize_current_page_duration-IsValid, modify-IsValid,
  raise_scroll-IsMild, clamp_percent-le,
}

pub new-IsValid : (config : SessionStateConfig) → IsValid 0 (new config)
new-IsValid config = record { bounded = omega arith; current = tt; increasing = tt; fits = tt }

pub length-finalize_current_page_duration :
    (t : Instant) (e : ℕ) (s : SessionState)
    → length (finalize_current_page_duration t e s).actions ≡ length s.actions
unfolding finalize_current_page_duration
length-finalize_current_page_duration t e s = elim (Option-cases s.current_page_index) [
  | inl none_ ↦ rw (none_, finalize_current_page_duration)
  | inr (i, at_) ↦ rw (at_, finalize_current_page_duration) (length-modify s.actions i _)
]

push_pageview-IsValid :
    {now : ℕ} {s : SessionState} (path : String)
    → length s.actions < max_actions
    → IsValid now s
    → (let p = push (pageview (new_pageview path (get_next_page_number s) now)) s in
        IsValid now (record p { current_page_index = some (length p.actions - 1) }))
unfolding get_next_page_number
push_pageview-IsValid {now} {s} path h v =
    let n = max_page_number 0 s.actions in
    let q = new_pageview path (n + 1) now in
    let a = pageview q in
    let len : length (s.actions ++ a ∷ []) - 1 ≡ length s.actions =
      omega (arith, length-append {0} s.actions (a ∷ [])) in
    record {
      bounded = omega (arith, length-append {0} s.actions (a ∷ []));
      current = (q, rw len (get_elem?-append_length s.actions a []));
      increasing =
          IsIncreasing-push_pageview 0 s.actions a n v.increasing (max_page_number-All 0 s.actions)
            (omega arith) (omega arith);
      fits = All-append (Fits now) s.actions (a ∷ []) v.fits (omega arith);
    }

pub add_pageview-IsValid :
    {latest : ℕ} {s : SessionState} (path : String) (t : Instant)
    → latest ≤ t.now
    → IsValid latest s
    → IsValid t.now (add_pageview path t s)
unfolding add_pageview
add_pageview-IsValid {s} path t h v = elim (Bool-cases (leb max_actions (length s.actions))) [
  | inl full ↦ rw full (IsValid-later h v)
  | inr room ↦ rw room (
      push_pageview-IsValid path (ground (arith, length-finalize_current_page_duration t t.now s))
        (finalize_current_page_duration-IsValid t h v))
]

pub update_scroll-IsValid :
    {now : ℕ} {s : SessionState} (percent : ℤ)
    → IsValid now s
    → IsValid now (update_scroll percent s)
unfolding update_scroll
update_scroll-IsValid {now} {s} percent v = elim (Option-cases s.current_page_index) [
  | inl e ↦ rw (e, update_scroll) v
  | inr (i, e) ↦
      rw (e, update_scroll)
        (modify-IsValid i _
          (raise_scroll-IsMild (clamp_percent percent) now (clamp_percent-le percent)) v)
]

number_or_one-pos : (o : Option Action) → 1 ≤ number_or_one o
number_or_one-pos none = omega arith
number_or_one-pos (some a) = ground arith

push-IsCurrent :
    (actions : List Action) (o : Option ℕ) (a : Action)
    → IsCurrent actions o
    → IsCurrent (actions ++ a ∷ []) o
push-IsCurrent actions none a _ = tt
push-IsCurrent actions (some i) a (p, e) =
    (p, rw (get_elem?-append_left actions (a ∷ []) i (lt_of_get_elem? actions i _ e)) e)

push_goal-IsValid :
    {now : ℕ} {s : SessionState} (g : GoalAction)
    → length s.actions < max_actions
    → 1 ≤ g.page_number
    → IsValid now s
    → IsValid now (push (goal g) s)
push_goal-IsValid {now} {s} g room h v = record {
  bounded = omega (arith, length-append {0} s.actions (goal g ∷ []));
  current = push-IsCurrent s.actions s.current_page_index (goal g) v.current;
  increasing = IsIncreasing-push_goal 0 s.actions g v.increasing;
  fits = All-append (Fits now) s.actions (goal g ∷ []) v.fits (h, tt);
}

pub add_goal-IsValid :
    {latest : ℕ} {s : SessionState} (name : String) (value : Option ℤ)
    (properties : Option (Dict String)) (now : ℕ)
    → IsValid latest s
    → IsValid latest (add_goal name value properties now s).0
unfolding add_goal
add_goal-IsValid {s} name value properties now v =
    elim (Bool-cases (leb max_actions (length s.actions))) [
      | inl full ↦ rw full v
      | inr room ↦
          rw room (push_goal-IsValid _ (ground arith) (number_or_one-pos (current_action s)) v)
    ]

pub finalize_for_unload-IsValid :
    {latest : ℕ} {s : SessionState} (t : Instant)
    → latest ≤ t.now
    → IsValid latest s
    → IsValid t.now (finalize_for_unload t s)
unfolding finalize_for_unload
finalize_for_unload-IsValid t h v =
    let w = finalize_current_page_duration-IsValid t h v in
    record { bounded = w.bounded; current = tt; increasing = w.increasing; fits = w.fits }

pub build_payload-IsValid :
    {A : Type 0} {latest : ℕ} {s : SessionState} (sdk_version : String) (attributes : A)
    (options : Option PayloadOptions) (t : Instant) (updated_at : ℕ)
    → latest ≤ t.now
    → IsValid latest s
    → IsValid t.now (build_payload sdk_version attributes options t updated_at s).0
unfolding build_payload
build_payload-IsValid sdk_version attributes options t updated_at h v =
    finalize_current_page_duration-IsValid t h v
