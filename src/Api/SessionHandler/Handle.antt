-- ===== src/Api/SessionHandler/Handle.antt =====
-- handle, getWorkspace and the two listeners of api/src/events/session-payload.handler.ts. The
-- store of workspaces, the lookup of an address and the parts of a URL are parameters; the clock is
-- read once in a call. The event buffer is that of Api/Events/EventBuffer, with what is around it,
-- as it is when the call comes to its step 10.
pub mod Cache
pub mod Outcome
use staminads.Common.{
  ℕ, ◌+◌, ◌*◌, String, Bool, true, false, Option, none, some, List, [], ◌∷◌, map, ltb, not,
  if◌then◌else◌, ◌>>=◌,
}
use staminads.Common.Dict.{Dict, get, put, remove}
use staminads.Common.Int.{ℤ}
use staminads.Sdk.SessionState.{Action}
use staminads.Api.Filters.Evaluator.{FilterDefinition}
use staminads.Api.SessionHandler.Domain.{extract_request_domain, is_domain_allowed}
use staminads.Api.SessionHandler.Skew.{calculate_clock_skew, applied_skew}
use staminads.Api.Events.EventBuffer.World.{World}
use staminads.Api.Events.EventBuffer.AddBatch.{Await, add_batch}
use staminads.Api.SessionHandler.Event.{
  Field, string, TrackingEvent, SessionPayloadDto, GeoLocation, build_base_event,
  deserialize_actions,
}
use staminads.Api.SessionHandler.Filtering.{apply_filters}

abbrev pub cache_ttl_ms : ℕ
cache_ttl_ms = 60 * 1000

-- The settings that the handler reads.
pub record Workspace : Type 0 where
  pub id : String
  pub allowed_domains : Option (List String)
  pub filters : List FilterDefinition
  pub geo_enabled : Bool
  pub geo_store_city : Bool
  pub geo_store_region : Bool
  pub geo_coordinates_precision : ℕ

pub record CachedWorkspace : Type 0 where
  pub workspace : Workspace
  pub expires_at : ℕ

-- `workspaceCache`
abbrev pub Cache : Type 0
Cache = Dict CachedWorkspace

-- What the store has, or an exception, which becomes a BadRequestException.
abbrev pub fetched : String → ℕ → Cache → Option Workspace → Cache × Option Workspace
fetched id now cache none = (cache, none)
fetched id now cache (some w) =
    (put cache id (record { workspace = w; expires_at = now + cache_ttl_ms }), some w)

abbrev pub cached_or_fetched :
    (String → Option Workspace)
    → String
    → ℕ
    → Cache
    → Option CachedWorkspace
    → Cache × Option Workspace
cached_or_fetched store id now cache none = fetched id now cache (store id)
cached_or_fetched store id now cache (some c) =
    if ltb now c.expires_at then (cache, some c.workspace) else fetched id now cache (store id)

unfoldable pub get_workspace :
    (String → Option Workspace) → String → ℕ → Cache → Cache × Option Workspace
get_workspace store id now cache = cached_or_fetched store id now cache (get cache id)

-- handleFiltersChanged and handleSettingsChanged
unfoldable pub handle_changed : String → Cache → Cache
handle_changed id cache = remove cache id

-- What handle comes to: the BadRequestException of an unknown workspace, a success without effect,
-- the RangeError of a time that is no date, or the events that it gives to the buffer, which takes
-- them (a success) or throws, when a flush fails.
pub data HandleResult : Type 0 where
  invalid_workspace : HandleResult
  ignored : HandleResult
  invalid_date : HandleResult
  buffered : List TrackingEvent → HandleResult
  not_buffered : List TrackingEvent → HandleResult

-- `event.workspace_id`
abbrev pub text_of_field : Option Field → String
text_of_field (some (string s)) = s
text_of_field _ = ""

abbrev pub workspace_id_of : TrackingEvent → String
workspace_id_of event = text_of_field (get event "workspace_id")

abbrev pub taken_or_not : Bool → List TrackingEvent → HandleResult
taken_or_not true events = not_buffered events
taken_or_not false events = buffered events

-- Step 10, if the events could be made. What happens while addBatch waits is an input.
abbrev pub add_events :
    (ℕ → Await TrackingEvent)
    → World TrackingEvent
    → Option (List TrackingEvent)
    → World TrackingEvent × HandleResult
add_events awaits buffer none = (buffer, invalid_date)
add_events awaits buffer (some events) =
    let run = add_batch workspace_id_of awaits events buffer in
    (run.world, taken_or_not run.has_failed events)

pub record RequestInfo : Type 0 where
  pub client_ip : Option String
  pub origin : Option String
  pub referer : Option String

module _ (regex_test : String → String → Option Bool) (url : String → Option (String × String))
    (lookup : Option String → Workspace → GeoLocation) where
  abbrev pub hostname : String → Option String
  hostname text = elim (url text) [ none ↦ none | some (domain, path) ↦ some domain ]

  -- Steps 4 to 9.
  unfoldable pub events_of_payload :
      SessionPayloadDto → RequestInfo → ℕ → Workspace → Option (List TrackingEvent)
  events_of_payload payload info now w =
      let skew_ms = applied_skew (calculate_clock_skew payload.sent_at now) in
      do
        base ← build_base_event url now payload (lookup info.client_ip w) now skew_ms
        events ← deserialize_actions base payload.session_id skew_ms "" payload.actions
        some (map (apply_filters regex_test w.filters) events)

  module _ (awaits : ℕ → Await TrackingEvent) where
    abbrev pub handle_actions :
        List Action
        → SessionPayloadDto
        → RequestInfo
        → ℕ
        → Workspace
        → World TrackingEvent
        → World TrackingEvent × HandleResult
    handle_actions [] payload info now w buffer = (buffer, ignored)
    handle_actions (a ∷ rest) payload info now w buffer =
        add_events awaits buffer (events_of_payload payload info now w)

    unfoldable pub handle_workspace :
        SessionPayloadDto
        → RequestInfo
        → ℕ
        → Option Workspace
        → World TrackingEvent
        → World TrackingEvent × HandleResult
    handle_workspace payload info now none buffer = (buffer, invalid_workspace)
    handle_workspace payload info now (some w) buffer =
        if is_domain_allowed (extract_request_domain hostname info.origin info.referer)
          w.allowed_domains
        then handle_actions payload.actions payload info now w buffer
        else (buffer, ignored)

    unfoldable pub handle :
        (String → Option Workspace)
        → SessionPayloadDto
        → RequestInfo
        → ℕ
        → Cache
        → World TrackingEvent
        → Cache × (World TrackingEvent × HandleResult)
    handle store payload info now cache buffer =
        let (cache', w) = get_workspace store payload.workspace_id now cache in
        (cache', handle_workspace payload info now w buffer)
