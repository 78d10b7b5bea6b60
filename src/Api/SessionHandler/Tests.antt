-- ===== src/Api/SessionHandler/Tests.antt =====
-- A payload at the handler of api/src/events/session-payload.handler.ts, and the theorems at it.
use staminads.Common.{
  ℕ, ◌+◌, ◌≤◌, String, Bool, false, Option, none, some, List, [], ◌∷◌, get_elem?, map, ◌≡◌, refl,
  all, true, arith, All,
}
use staminads.Common.Dict.{get, keys}
use staminads.Common.Int.{pos, pos_part, neg_part}
use staminads.Common.Texts.{decimal}
use staminads.Sdk.SessionState.{PageviewAction, Action, pageview, goal}
use staminads.Api.Filters.Evaluator.{
  FilterDefinition, evaluate_filters, run_filters, sort_by_priority,
}
use staminads.Api.SessionHandler.Skew.{calculate_clock_skew, applied_skew, correct_timestamp}
use staminads.Api.SessionHandler.Skew.Corrected.{correct_timestamp-bound}
use staminads.Api.SessionHandler.Event.{
  TrackingEvent, SessionPayloadDto, GeoLocation, string, null, dedup_token, is_date,
  deserialize_goal, deserialize_action, deserialize_actions,
}
use staminads.Api.SessionHandler.Event.Dates.{has_dates}
use staminads.Api.Events.EventBuffer.AddBatch.{Await}
use staminads.Api.SessionHandler.Event.Tokens.{
  IsSameAction, map-deserialize_actions, dedup_token_inj,
}
use staminads.Api.SessionHandler.Event.Paths.{deserialize_actions-previous_path}
use staminads.Api.SessionHandler.Filtering.{no_dimensions, extract_field_values, apply_filters}
use staminads.Api.SessionHandler.Filtering.Erased.{apply_filters-erased}
use staminads.Api.SessionHandler.Handle.{Workspace, RequestInfo, get_workspace, handle_changed}
use staminads.Api.SessionHandler.Handle.Cache.{IsFaithful, IsRecent, get_workspace-IsRecent}

abbrev page : String → ℕ → Action
page path number = pageview (record {
  path = path;
  page_number = number;
  duration = 5;
  scroll = 50;
  entered_at = 9000;
  exited_at = 9500;
})

abbrev signup : Action
signup = goal (record {
  name = "signup";
  path = "/a";
  page_number = 1;
  timestamp = 9100;
  value = none;
  properties = none;
})

abbrev journey : List Action
journey = page "/a" 1 ∷ signup ∷ page "/b" 2 ∷ []

correct_timestamp-bound_example :
    let skew = applied_skew (calculate_clock_skew (some 10000) 90000) in
    (pos_part (correct_timestamp 9500 skew) ≤ 90000 + 5000)
    × (pos_part (correct_timestamp 9500 skew) + neg_part (correct_timestamp 9000 skew) + 9000
        ≡ pos_part (correct_timestamp 9000 skew) + neg_part (correct_timestamp 9500 skew) + 9500)
correct_timestamp-bound_example =
    correct_timestamp-bound 10000 90000 9500 9000 (omega arith) (omega arith)

journey-dates : all (has_dates (pos 7)) journey ≡ true
unfolding is_date correct_timestamp
journey-dates = refl

map-deserialize_actions_example :
    (events : List TrackingEvent) × (deserialize_actions [] "s1" (pos 7) "" journey ≡ some events)
    × (map (λ event. get event "dedup_token") events ≡ (
        some (string "s1_pv_1")
        ∷ some (string "s1_goal_signup_9100")
        ∷ some (string "s1_pv_2")
        ∷ []))
unfolding dedup_token decimal
map-deserialize_actions_example = map-deserialize_actions [] "s1" (pos 7) "" journey journey-dates

-- A time that the validation of the payload lets through, and that is no date.
abbrev far_journey : List Action
far_journey =
    goal (record {
      name = "signup";
      path = "/a";
      page_number = 1;
      timestamp = 8640000000000001;
      value = none;
      properties = none;
    })
    ∷ []

far_journey_throws : deserialize_actions [] "s1" (pos 0) "" far_journey ≡ none
unfolding deserialize_actions deserialize_action deserialize_goal is_date correct_timestamp
far_journey_throws = refl

dedup_token_inj_example : IsSameAction (page "/a" 1) (page "/x" 1)
unfolding dedup_token
dedup_token_inj_example = dedup_token_inj "s1" (page "/a" 1) (page "/x" 1) refl

abbrev second_page : PageviewAction
second_page = record {
  path = "/b";
  page_number = 2;
  duration = 5;
  scroll = 50;
  entered_at = 9000;
  exited_at = 9500;
}

journey-dates_uncorrected : all (has_dates (pos 0)) journey ≡ true
unfolding is_date correct_timestamp
journey-dates_uncorrected = refl

deserialize_actions-previous_path_example :
    (events : List TrackingEvent) × (event : TrackingEvent) × (deserialize_actions [] "s1"
        (pos 0)
        ""
        journey
      ≡ some events)
    × (get_elem? events 2 ≡ some event)
    × (get event "previous_path" ≡ some (string "/a"))
deserialize_actions-previous_path_example =
    deserialize_actions-previous_path [] "s1" (pos 0) (page "/a" 1 ∷ signup ∷ []) [] second_page
      journey-dates_uncorrected

abbrev no_regex : String → String → Option Bool
no_regex pattern text = none

-- A filter that is switched off.
abbrev disabled : FilterDefinition
disabled = record {
  id = "f1";
  name = "off";
  priority = 1;
  order = 1;
  tags = [];
  conditions = [];
  operations = [];
  enabled = false;
  version = "v";
  created_at = "";
  updated_at = "";
}

-- The SDK has sent a value for the third dimension.
abbrev tagged : TrackingEvent
tagged = ("path", string "/a") ∷ ("stm_3", string "premium") ∷ []

no_filter_applies : evaluate_filters no_regex (extract_field_values tagged) (disabled ∷ []) ≡ []
unfolding evaluate_filters run_filters sort_by_priority
no_filter_applies = refl

apply_filters-erased_example :
    All
      (λ name. get (apply_filters no_regex (disabled ∷ []) tagged) name ≡ some null)
      (keys no_dimensions)
    × (get (apply_filters no_regex (disabled ∷ []) tagged) "path" ≡ some (string "/a"))
unfolding get
apply_filters-erased_example =
    apply_filters-erased no_regex disabled [] tagged "path" no_filter_applies refl

abbrev shop : Workspace
shop = record {
  id = "shop";
  allowed_domains = none;
  filters = [];
  geo_enabled = false;
  geo_store_city = false;
  geo_store_region = false;
  geo_coordinates_precision = 0;
}

abbrev only_shop : String → Option Workspace
only_shop id = some shop

no_cache-IsFaithful : IsFaithful (λ now. only_shop) 0 []
unfolding get
no_cache-IsFaithful id c found = absurd (ground arith)

get_workspace-IsRecent_example :
    let answer = get_workspace only_shop "shop" 9000 [] in
    IsFaithful (λ now. only_shop) 9000 answer.0
    × IsRecent (λ now. only_shop) 9000 "shop" answer.1
    × IsFaithful (λ now. only_shop) 9000 (handle_changed "shop" answer.0)
get_workspace-IsRecent_example =
    get_workspace-IsRecent (λ now. only_shop) 0 9000 "shop" "shop" [] (omega arith)
      no_cache-IsFaithful

abbrev payload : SessionPayloadDto
payload = record {
  workspace_id = "shop";
  session_id = "s1";
  actions = journey;
  attributes = [];
  created_at = 8000;
  updated_at = 9500;
  sdk_version = none;
  sent_at = some 9600;
  user_id = none;
  dimensions = [];
}

abbrev request : RequestInfo
request = record { client_ip = none; origin = none; referer = none }

abbrev no_url : String → Option (String × String)
no_url text = none

abbrev nowhere : Option String → Workspace → GeoLocation
nowhere ip w = record {
  country = none;
  region = none;
  city = none;
  latitude = null;
  longitude = null;
}

-- Nothing else happens while addBatch waits.
abbrev alone : ℕ → Await TrackingEvent
alone i = record { meanwhile = λ w. w; insert_fails = false }
