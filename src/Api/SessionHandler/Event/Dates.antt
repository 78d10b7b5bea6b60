-- ===== src/Api/SessionHandler/Event/Dates.antt =====
-- When the actions of a payload give events (api/src/events/session-payload.handler.ts): their times,
-- corrected for the clock skew, must be dates.
use staminads.Common.{
  ℕ, String, Bool, true, false, ◌&&◌, none, some, List, [], ◌∷◌, ◌≡◌, refl, inl, inr, all,
  Bool-cases, ◌>>=◌, if◌then◌else◌, suc, ap, length,
}
use staminads.Common.Dict.{assign}
use staminads.Common.Int.{ℤ}
use staminads.Sdk.SessionState.{Action, pageview, goal}
use staminads.Api.SessionHandler.Skew.{correct_timestamp}
use staminads.Api.SessionHandler.Event.{
  TrackingEvent, number, is_date, pageview_fields, goal_fields, deserialize_pageview,
  deserialize_goal, deserialize_action, deserialize_actions, next_path,
}

abbrev pub times_of : Action → List ℕ
times_of (pageview p) = p.entered_at ∷ p.exited_at ∷ []
times_of (goal g) = g.timestamp ∷ []

-- Every one of some times is a date when it is corrected.
abbrev pub are_dates : ℤ → List ℕ → Bool
are_dates skew_ms = all (λ time. is_date (correct_timestamp time skew_ms))

abbrev pub has_dates : ℤ → Action → Bool
has_dates skew_ms a = are_dates skew_ms (times_of a)

-- The event of an action whose times are dates.
abbrev pub dated_event : Action → TrackingEvent → String → String → ℤ → TrackingEvent
dated_event (pageview p) base session_id previous_path skew_ms = assign base (
    pageview_fields p session_id previous_path (number (correct_timestamp p.entered_at skew_ms))
      (number (correct_timestamp p.exited_at skew_ms)))
dated_event (goal g) base session_id previous_path skew_ms =
    assign base (goal_fields g session_id (number (correct_timestamp g.timestamp skew_ms)))

abbrev pub dated_events : TrackingEvent → String → ℤ → String → List Action → List TrackingEvent
dated_events base session_id skew_ms previous_path [] = []
dated_events base session_id skew_ms previous_path (a ∷ rest) =
    dated_event a base session_id previous_path skew_ms
    ∷ dated_events base session_id skew_ms (next_path previous_path a) rest

-- `if` in a chain of optional results.
pub deserialize_action_lem :
    (a : Action) (base : TrackingEvent) (session_id previous_path : String) (skew_ms : ℤ)
    → deserialize_action a base session_id previous_path skew_ms ≡ (
        if has_dates skew_ms a
        then some (dated_event a base session_id previous_path skew_ms)
        else none)
unfolding deserialize_action deserialize_pageview deserialize_goal
deserialize_action_lem (pageview p) base session_id previous_path skew_ms =
    elim (Bool-cases (is_date (correct_timestamp p.entered_at skew_ms))) [
      | inl first ↦ elim (Bool-cases (is_date (correct_timestamp p.exited_at skew_ms))) [
        | inl second ↦ rw (first, second) refl
        | inr bad ↦ rw (first, bad) refl
      ]
      | inr bad ↦ rw bad refl
    ]
deserialize_action_lem (goal g) base session_id previous_path skew_ms =
    elim (Bool-cases (is_date (correct_timestamp g.timestamp skew_ms))) [
      | inl good ↦ rw good refl
      | inr bad ↦ rw bad refl
    ]

cons_if :
    (b c : Bool) (e : TrackingEvent) (es : List TrackingEvent)
    → ((if b then some e else none) >>= λ event.
        (if c then some es else none) >>= λ events. some (event ∷ events))
      ≡ (if b && c then some (e ∷ es) else none)
cons_if true true e es = refl
cons_if true false e es = refl
cons_if false c e es = refl

-- All the actions give their events, or one of their times is no date and nothing comes of them.
pub deserialize_actions_lem :
    (base : TrackingEvent) (session_id : String) (skew_ms : ℤ) (previous_path : String)
    (actions : List Action)
    → deserialize_actions base session_id skew_ms previous_path actions ≡ (
        if all (has_dates skew_ms) actions
        then some (dated_events base session_id skew_ms previous_path actions)
        else none)
unfolding deserialize_actions
deserialize_actions_lem base session_id skew_ms previous_path [] = refl
deserialize_actions_lem base session_id skew_ms previous_path (a ∷ rest) =
    rw
      (
        deserialize_action_lem a base session_id previous_path skew_ms,
        deserialize_actions_lem base session_id skew_ms (next_path previous_path a) rest,
      )
      (cons_if (has_dates skew_ms a) (all (has_dates skew_ms) rest)
        (dated_event a base session_id previous_path skew_ms)
        (dated_events base session_id skew_ms (next_path previous_path a) rest))

pub deserialize_actions-some :
    (base : TrackingEvent) (session_id : String) (skew_ms : ℤ) (previous_path : String)
    (actions : List Action)
    → all (has_dates skew_ms) actions ≡ true
    → deserialize_actions base session_id skew_ms previous_path actions
      ≡ some (dated_events base session_id skew_ms previous_path actions)
deserialize_actions-some base session_id skew_ms previous_path actions dates =
    rw dates at (deserialize_actions_lem base session_id skew_ms previous_path actions)

pub length-dated_events :
    (base : TrackingEvent) (session_id : String) (skew_ms : ℤ) (previous_path : String)
    (actions : List Action)
    → length (dated_events base session_id skew_ms previous_path actions) ≡ length actions
length-dated_events base session_id skew_ms previous_path [] = refl
length-dated_events base session_id skew_ms previous_path (a ∷ rest) =
    ap suc (length-dated_events base session_id skew_ms (next_path previous_path a) rest)
