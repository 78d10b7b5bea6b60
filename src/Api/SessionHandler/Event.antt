-- ===== src/Api/SessionHandler/Event.antt =====
-- The events that the server makes of the actions of a payload (buildBaseEvent, deserializeAction
-- and the loop of handle in api/src/events/session-payload.handler.ts). An event is an object with
-- named fields; its times are kept in milliseconds, where the source writes them as texts for
-- ClickHouse, and none stands for the RangeError of a time that is no date. `new URL(text)` is a parameter that gives hostname and pathname, or throws.
pub mod Dates
pub mod Tokens
pub mod Paths
use staminads.Common.{
  ℕ, String, Bool, true, false, not, Option, none, some, List, [], ◌∷◌, str_eq, if◌then◌else◌, leb,
  ◌&&◌, ◌>>=◌,
}
use staminads.Common.Dict.{Dict, get, assign}
use staminads.Common.Int.{ℤ, pos, pos_part, neg_part}
use staminads.Common.Texts.{◌<>◌, decimal}
use staminads.Sdk.SessionState.{PageviewAction, GoalAction, Action, pageview, goal}
use staminads.Api.SessionHandler.Skew.{correct_timestamp}

-- What a field may hold.
pub data Field : Type 0 where
  string : String → Field
  number : ℤ → Field
  flag : Bool → Field
  bag : Dict String → Field
  null undefined : Field

abbrev pub TrackingEvent : Type 0
TrackingEvent = Dict Field

-- The payload, after validation: attributes and dimensions are objects.
pub record SessionPayloadDto : Type 0 where
  pub workspace_id : String
  pub session_id : String
  pub actions : List Action
  pub attributes : Dict Field
  pub created_at : ℕ
  pub updated_at : ℕ
  pub sdk_version : Option String
  pub sent_at : Option ℕ
  pub user_id : Option String
  pub dimensions : Dict Field

pub record GeoLocation : Type 0 where
  pub country : Option String
  pub region : Option String
  pub city : Option String
  pub latitude : Field
  pub longitude : Field

-- `value ?? other`
abbrev pub or_field : Field → Option Field → Field
or_field other none = other
or_field other (some null) = other
or_field other (some undefined) = other
or_field other (some v) = v

abbrev pub text_or_blank : Option String → Field
text_or_blank none = string ""
text_or_blank (some s) = string s

abbrev pub text_or_null : Option String → Field
text_or_null none = null
text_or_null (some s) = string s

abbrev pub value_or_zero : Option ℤ → Field
value_or_zero none = number (pos 0)
value_or_zero (some v) = number v

abbrev pub bag_or_empty : Option (Dict String) → Field
bag_or_empty none = bag []
bag_or_empty (some properties) = bag properties

-- `!value`, for a text that may be missing
abbrev pub is_blank : Option Field → Bool
is_blank (some (string s)) = str_eq s ""
is_blank _ = true

-- parseUrl: hostname and pathname, none where there is no URL.
abbrev pub parse_url : (String → Option (String × String)) → Option Field → Option (String × String)
parse_url url (some (string s)) = if str_eq s "" then none else url s
parse_url url _ = none

abbrev pub domain_of : Option (String × String) → Field
domain_of none = string ""
domain_of (some (domain, path)) = string domain

abbrev pub path_of : Option (String × String) → Field
path_of none = string ""
path_of (some (domain, path)) = string path

-- `attrs?.name ?? ''`, `payload.dimensions?.name ?? ''`
abbrev pub attribute : Dict Field → String → String × Field
attribute attrs name = (name, or_field (string "") (get attrs name))

-- `attrs?.name ?? 0`
abbrev pub size : Dict Field → String → String × Field
size attrs name = (name, or_field (number (pos 0)) (get attrs name))

-- The times that a Date can hold, in milliseconds from 1970.
abbrev pub max_time : ℕ
max_time = 8640000000000000

unfoldable pub is_date : ℤ → Bool
is_date time = leb (pos_part time) max_time && leb (neg_part time) max_time

-- `toClickHouseDateTime(new Date(time))`: toISOString throws if the time is no date.
abbrev pub to_clickhouse_date_time : ℤ → Option Field
to_clickhouse_date_time time = if is_date time then some (number time) else none

unfoldable pub build_base_event :
    (String → Option (String × String))
    → ℕ
    → SessionPayloadDto
    → GeoLocation
    → ℕ
    → ℤ
    → Option TrackingEvent
build_base_event url now payload geo version skew_ms =
    let attrs = payload.attributes in
    let referrer = parse_url url (get attrs "referrer") in
    let landing = parse_url url (get attrs "landing_page") in
    do
      created_at ← to_clickhouse_date_time (correct_timestamp payload.created_at skew_ms)
      updated_at ← to_clickhouse_date_time (correct_timestamp payload.updated_at skew_ms)
      some (
          ("session_id", string payload.session_id)
          ∷ ("workspace_id", string payload.workspace_id)
          ∷ ("received_at", number (pos now))
          ∷ ("created_at", created_at)
          ∷ ("updated_at", updated_at)
          ∷ ("_version", number (pos version))
          ∷ attribute attrs "referrer"
          ∷ ("referrer_domain", domain_of referrer)
          ∷ ("referrer_path", path_of referrer)
          ∷ ("is_direct", flag (is_blank (get attrs "referrer")))
          ∷ attribute attrs "landing_page"
          ∷ ("landing_domain", domain_of landing)
          ∷ ("landing_path", path_of landing)
          ∷ attribute attrs "utm_source"
          ∷ attribute attrs "utm_medium"
          ∷ attribute attrs "utm_campaign"
          ∷ attribute attrs "utm_term"
          ∷ attribute attrs "utm_content"
          ∷ attribute attrs "utm_id"
          ∷ attribute attrs "utm_id_from"
          ∷ size attrs "screen_width"
          ∷ size attrs "screen_height"
          ∷ size attrs "viewport_width"
          ∷ size attrs "viewport_height"
          ∷ attribute attrs "device"
          ∷ attribute attrs "browser"
          ∷ attribute attrs "browser_type"
          ∷ attribute attrs "os"
          ∷ attribute attrs "user_agent"
          ∷ attribute attrs "connection_type"
          ∷ attribute attrs "language"
          ∷ attribute attrs "timezone"
          ∷ ("country", text_or_blank geo.country)
          ∷ ("region", text_or_blank geo.region)
          ∷ ("city", text_or_blank geo.city)
          ∷ ("latitude", geo.latitude)
          ∷ ("longitude", geo.longitude)
          ∷ ("sdk_version", text_or_blank payload.sdk_version)
          ∷ ("channel", string "")
          ∷ ("channel_group", string "")
          ∷ attribute payload.dimensions "stm_1"
          ∷ attribute payload.dimensions "stm_2"
          ∷ attribute payload.dimensions "stm_3"
          ∷ attribute payload.dimensions "stm_4"
          ∷ attribute payload.dimensions "stm_5"
          ∷ attribute payload.dimensions "stm_6"
          ∷ attribute payload.dimensions "stm_7"
          ∷ attribute payload.dimensions "stm_8"
          ∷ attribute payload.dimensions "stm_9"
          ∷ attribute payload.dimensions "stm_10"
          ∷ ("user_id", text_or_null payload.user_id)
          ∷ [])

-- `${sessionId}_pv_${action.page_number}` and `${sessionId}_goal_${action.name}_${action.timestamp}`
unfoldable pub dedup_token : String → Action → String
dedup_token session_id (pageview p) = session_id <> "_pv_" <> decimal p.page_number
dedup_token session_id (goal g) = session_id <> "_goal_" <> g.name <> "_" <> decimal g.timestamp

-- What deserializePageview puts on the base event.
abbrev pub pageview_fields : PageviewAction → String → String → Field → Field → Dict Field
pageview_fields p session_id previous_path entered_at exited_at =
    ("dedup_token", string (dedup_token session_id (pageview p)))
    ∷ ("name", string "screen_view")
    ∷ ("path", string p.path)
    ∷ ("page_number", number (pos p.page_number))
    ∷ ("duration", number (pos p.duration))
    ∷ ("page_duration", number (pos p.duration))
    ∷ ("max_scroll", number (pos p.scroll))
    ∷ ("previous_path", string previous_path)
    ∷ ("goal_name", string "")
    ∷ ("goal_value", number (pos 0))
    ∷ ("properties", bag [])
    ∷ ("entered_at", entered_at)
    ∷ ("exited_at", exited_at)
    ∷ ("goal_timestamp", null)
    ∷ []

unfoldable pub deserialize_pageview :
    PageviewAction → TrackingEvent → String → String → ℤ → Option TrackingEvent
deserialize_pageview p base session_id previous_path skew_ms = do
  entered_at ← to_clickhouse_date_time (correct_timestamp p.entered_at skew_ms)
  exited_at ← to_clickhouse_date_time (correct_timestamp p.exited_at skew_ms)
  some (assign base (pageview_fields p session_id previous_path entered_at exited_at))

-- What deserializeGoal puts on the base event.
abbrev pub goal_fields : GoalAction → String → Field → Dict Field
goal_fields g session_id timestamp =
    ("dedup_token", string (dedup_token session_id (goal g)))
    ∷ ("name", string "goal")
    ∷ ("path", string g.path)
    ∷ ("page_number", number (pos g.page_number))
    ∷ ("duration", number (pos 0))
    ∷ ("page_duration", number (pos 0))
    ∷ ("max_scroll", number (pos 0))
    ∷ ("previous_path", string "")
    ∷ ("goal_name", string g.name)
    ∷ ("goal_value", value_or_zero g.value)
    ∷ ("properties", bag_or_empty g.properties)
    ∷ ("entered_at", timestamp)
    ∷ ("exited_at", timestamp)
    ∷ ("goal_timestamp", timestamp)
    ∷ []

unfoldable pub deserialize_goal : GoalAction → TrackingEvent → String → ℤ → Option TrackingEvent
deserialize_goal g base session_id skew_ms = do
  timestamp ← to_clickhouse_date_time (correct_timestamp g.timestamp skew_ms)
  some (assign base (goal_fields g session_id timestamp))

unfoldable pub deserialize_action :
    Action → TrackingEvent → String → String → ℤ → Option TrackingEvent
deserialize_action (pageview p) base session_id previous_path skew_ms =
    deserialize_pageview p base session_id previous_path skew_ms
deserialize_action (goal g) base session_id previous_path skew_ms =
    deserialize_goal g base session_id skew_ms

-- `previousPath` after an action
abbrev pub next_path : String → Action → String
next_path previous_path (pageview p) = p.path
next_path previous_path (goal g) = previous_path

-- Step 8 of handle.
unfoldable pub deserialize_actions :
    TrackingEvent → String → ℤ → String → List Action → Option (List TrackingEvent)
deserialize_actions base session_id skew_ms previous_path [] = some []
deserialize_actions base session_id skew_ms previous_path (a ∷ rest) = do
  event ← deserialize_action a base session_id previous_path skew_ms
  events ← deserialize_actions base session_id skew_ms (next_path previous_path a) rest
  some (event ∷ events)
