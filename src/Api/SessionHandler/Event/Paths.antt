-- ===== src/Api/SessionHandler/Event/Paths.antt =====
-- The path before a page, among the events of a payload (the loop of handle in
-- api/src/events/session-payload.handler.ts).
use staminads.Common.{String, some, all, true, List, [], ◌∷◌, ◌++◌, length, get_elem?, ◌≡◌, refl}
use staminads.Common.Dict.{get, get-assign, last_value}
use staminads.Common.Int.{ℤ}
use staminads.Sdk.SessionState.{PageviewAction, Action, pageview, goal}
use staminads.Api.SessionHandler.Event.{TrackingEvent, string, deserialize_actions}
use staminads.Api.SessionHandler.Event.Dates.{
  has_dates, dated_event, dated_events, deserialize_actions-some,
}

-- The path of the last pageview of some actions, or another.
abbrev pub last_path : String → List Action → String
last_path other [] = other
last_path other (pageview p ∷ rest) = last_path p.path rest
last_path other (goal g ∷ rest) = last_path other rest

previous_path-dated_event :
    (p : PageviewAction) (base : TrackingEvent) (session_id previous_path : String) (skew_ms : ℤ)
    → get (dated_event (pageview p) base session_id previous_path skew_ms) "previous_path"
      ≡ some (string previous_path)
unfolding last_value
previous_path-dated_event p base session_id previous_path skew_ms =
    get-assign base _ "previous_path"

-- The event at the place of an action, when those before it are known.
get_elem?-dated_events :
    (base : TrackingEvent) (session_id : String) (skew_ms : ℤ) (start : String)
    (before : List Action) (a : Action) (after : List Action)
    → get_elem? (dated_events base session_id skew_ms start (before ++ a ∷ after)) (length before)
      ≡ some (dated_event a base session_id (last_path start before) skew_ms)
get_elem?-dated_events base session_id skew_ms start [] a after = refl
get_elem?-dated_events base session_id skew_ms start (pageview p ∷ before) a after =
    get_elem?-dated_events base session_id skew_ms p.path before a after
get_elem?-dated_events base session_id skew_ms start (goal g ∷ before) a after =
    get_elem?-dated_events base session_id skew_ms start before a after

-- If the times of the actions are dates when they are corrected, the event of a pageview stands at
-- its place among the events and says, as the previous path, the path of the last pageview before
-- it, or nothing if it is the first.
pub deserialize_actions-previous_path :
    (base : TrackingEvent) (session_id : String) (skew_ms : ℤ) (before after : List Action)
    (p : PageviewAction)
    → all (has_dates skew_ms) (before ++ pageview p ∷ after) ≡ true
    → (events : List TrackingEvent) × (event : TrackingEvent) × (deserialize_actions base session_id
          skew_ms ""
          (before ++ pageview p ∷ after)
        ≡ some events)
      × (get_elem? events (length before) ≡ some event)
      × (get event "previous_path" ≡ some (string (last_path "" before)))
deserialize_actions-previous_path base session_id skew_ms before after p dates = (
  dated_events base session_id skew_ms "" (before ++ pageview p ∷ after),
  dated_event (pageview p) base session_id (last_path "" before) skew_ms,
  deserialize_actions-some base session_id skew_ms "" (before ++ pageview p ∷ after) dates,
  get_elem?-dated_events base session_id skew_ms "" before (pageview p) after,
  previous_path-dated_event p base session_id (last_path "" before) skew_ms,
)
