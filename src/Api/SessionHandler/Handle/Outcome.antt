-- ===== src/Api/SessionHandler/Handle/Outcome.antt =====
-- When a payload gives events, how many, and what ends a call of handle otherwise
-- (api/src/events/session-payload.handler.ts).
use staminads.Common.{
  ℕ, String, Bool, true, false, ◌&&◌, Option, none, some, List, [], length, all, ◌≡◌, ◌≢◌, ◌⊎◌,
}
use staminads.Api.Events.EventBuffer.World.{World}
use staminads.Api.Events.EventBuffer.AddBatch.{Await, add_batch}
use staminads.Api.Events.EventBuffer.Ended.{IsFailure}
use staminads.Api.SessionHandler.Domain.{extract_request_domain, is_domain_allowed}
use staminads.Api.SessionHandler.Skew.{calculate_clock_skew, applied_skew, correct_timestamp}
use staminads.Api.SessionHandler.Event.{TrackingEvent, SessionPayloadDto, GeoLocation, is_date}
use staminads.Api.SessionHandler.Event.Dates.{has_dates}
use staminads.Api.SessionHandler.Handle.{
  Workspace, RequestInfo, HandleResult, invalid_workspace, ignored, invalid_date, buffered,
  not_buffered, workspace_id_of, hostname,
}

-- Every time of the payload is a date when it is corrected for the clock skew.
abbrev pub has_payload_dates : SessionPayloadDto → ℕ → Bool
has_payload_dates payload now =
    let skew_ms = applied_skew (calculate_clock_skew payload.sent_at now) in
    is_date (correct_timestamp payload.created_at skew_ms)
    && (is_date (correct_timestamp payload.updated_at skew_ms)
        && all (has_dates skew_ms) payload.actions)

module _ (regex_test : String → String → Option Bool) (url : String → Option (String × String))
    (lookup : Option String → Workspace → GeoLocation) where
  abbrev pub is_allowed : RequestInfo → Workspace → Bool
  is_allowed info w =
      is_domain_allowed
        (extract_request_domain (hostname regex_test url lookup) info.origin info.referer)
        w.allowed_domains

  -- The events that are made, by whether the times are dates.
  abbrev Made : Bool → SessionPayloadDto → Option (List TrackingEvent) → Type 0
  Made false payload made = made ≡ none
  Made true payload made =
      (events : List TrackingEvent) × (made ≡ some events)
      × (length events ≡ length payload.actions)

  module _ (awaits : ℕ → Await TrackingEvent) where
    -- The payload has actions, and its request comes from a domain that is allowed.
    abbrev pub IsTaken : SessionPayloadDto → RequestInfo → Workspace → Type 0
    IsTaken payload info w = (payload.actions ≢ []) × (is_allowed info w ≡ true)

    -- The events are one for each action, and every time was a date.
    abbrev pub IsMade : SessionPayloadDto → ℕ → List TrackingEvent → Type 0
    IsMade payload now events =
        (has_payload_dates payload now ≡ true) × (length events ≡ length payload.actions)

    -- What a result says about the workspace, the payload and the buffer.
    abbrev pub IsExplained :
        SessionPayloadDto
        → RequestInfo
        → ℕ
        → World TrackingEvent
        → Option Workspace
        → World TrackingEvent
        → HandleResult
        → Type 0
    IsExplained payload info now buffer none after invalid_workspace = after ≡ buffer
    IsExplained payload info now buffer none after ignored = ⊥
    IsExplained payload info now buffer none after invalid_date = ⊥
    IsExplained payload info now buffer none after (buffered events) = ⊥
    IsExplained payload info now buffer none after (not_buffered events) = ⊥
    IsExplained payload info now buffer (some w) after invalid_workspace = ⊥
    IsExplained payload info now buffer (some w) after ignored =
        ((payload.actions ≡ []) ⊎ (is_allowed info w ≡ false)) × (after ≡ buffer)
    IsExplained payload info now buffer (some w) after invalid_date =
        IsTaken payload info w × (has_payload_dates payload now ≡ false) × (after ≡ buffer)
    IsExplained payload info now buffer (some w) after (buffered events) =
        IsTaken payload info w
        × IsMade payload now events
        × (after ≡ (add_batch workspace_id_of awaits events buffer).world)
        × ((add_batch workspace_id_of awaits events buffer).left ≡ [])
    IsExplained payload info now buffer (some w) after (not_buffered events) =
        IsTaken payload info w
        × IsMade payload now events
        × (after ≡ (add_batch workspace_id_of awaits events buffer).world)
        × ((i : ℕ) × IsFailure awaits i after)
