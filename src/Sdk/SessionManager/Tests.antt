-- ===== src/Sdk/SessionManager/Tests.antt =====
-- A tab over two pages (sdk/src/core/session.ts), and the theorems about it.
use staminads.Common.{
  ℕ, String, ◌≡◌, refl, Option, none, some, [], ◌∷◌, ltb, if◌then◌else◌, str_eq, ◌-◌,
}
use staminads.Common.Texts.{decimal}
use staminads.Sdk.SessionManager.Types.{
  Session, Page, truthy_or_null, put_dimension, lookup_dimension, parse_stm_dimensions,
  parse_utm_params, has_utm_values,
}
use staminads.Sdk.SessionManager.{
  Config, Store, SessionManager, Clock, new_manager, get_or_create_session, set_dimension,
  set_dimensions, set_user_id, apply_url_dimensions, get_dimension, get_session_id, load_dimensions,
  load_user_id, save_session, save_dimensions, save_user_id, fresh_session, create_session,
  is_valid_cross_domain, is_session_expired, fill_dimensions, set_cross_domain_input, get_user_id,
  bad_index,
}
use staminads.Sdk.SessionManager.Stored.{IsSound}
use staminads.Sdk.SessionManager.Pages.{
  Reach, first_page, next_page, get, dimension, user, url, Reach-IsSound,
}
use staminads.Sdk.SessionManager.Carried.{get_or_create_session-Reach, get_or_create_session-twice}
use staminads.Sdk.SessionManager.UrlDimensions.{first_of, get_dimension-apply_url_dimensions}

manager : Unit {0}
unfolding new_manager get_or_create_session set_dimension set_dimensions set_user_id
    apply_url_dimensions get_dimension get_session_id load_dimensions load_user_id save_session
    save_dimensions save_user_id fresh_session create_session is_valid_cross_domain
    is_session_expired fill_dimensions put_dimension lookup_dimension parse_stm_dimensions
    parse_utm_params has_utm_values set_cross_domain_input get_user_id decimal
manager = tt

abbrev settings : Config
settings = record {
  workspace_id = "ws";
  session_timeout = 1800000;
  ad_click_ids = "gclid" ∷ [];
  sdk_version = "6";
}

abbrev home_params : String → Option String
home_params name =
    if str_eq name "stm_3" then some "spring" else if str_eq name "gclid" then some "x1" else none

abbrev home : Page
home = record { href = "https://a.example/"; referrer = ""; params = home_params }

abbrev at : ℕ → Clock
at now = record { cross = now; check = now; active = now; update = now; create = now }

abbrev empty_store : Store
empty_store = record { session = none; dimensions = none; user_id = none }

abbrev page_one : SessionManager
page_one =
    (set_user_id (some "u7") (
      apply_url_dimensions (parse_stm_dimensions home_params)
        (set_dimension 1 "gold"
          (get_or_create_session home (at 1000) "first"
            (new_manager settings "tab" empty_store none)).0).0)).0

page_one-Reach : Reach page_one
page_one-Reach =
    user (some "u7") (
      url home_params (dimension 1 "gold" (get home (at 1000) "first" (first_page settings "tab"))))

abbrev page_two : SessionManager
page_two = new_manager settings "other" page_one.store page_one.tab_store

page_two-Reach : Reach page_two
page_two-Reach = next_page settings "other" page_one-Reach

abbrev session_one : Session
session_one = record {
  id = "first";
  workspace_id = "ws";
  created_at = 1000;
  updated_at = 1000;
  last_active_at = 1000;
  focus_duration_ms = 0;
  total_duration_ms = 0;
  referrer = none;
  landing_page = "https://a.example/";
  utm = some (record {
    source = none;
    medium = none;
    campaign = none;
    term = none;
    content = none;
    id = some "x1";
    id_from = some "gclid";
  });
  max_scroll_percent = 0;
  interaction_count = 0;
  sdk_version = "6";
  sequence = 0;
  dimensions = (1, "gold") ∷ (3, "spring") ∷ [];
  user_id = some "u7";
}

session_one_lem : page_one.session ≡ some session_one
unfolding manager
session_one_lem = refl

-- After the timeout the second page has a new session.
late_session : (get_or_create_session home (at 1900000) "second" page_two).1.id ≡ "second"
unfolding manager
late_session = refl

late_dimension : set_dimension 11 "x" page_one ≡ (page_one, some bad_index)
unfolding manager
late_dimension = refl

Reach-IsSound_example : IsSound page_one
Reach-IsSound_example = Reach-IsSound page_one page_one-Reach

get_or_create_session-Reach_example :
    let after = (get_or_create_session home (at 1900000) "second" page_two).1 in
    (after.dimensions ≡ (1, "gold") ∷ (3, "spring") ∷ [])
    × (truthy_or_null after.user_id ≡ some "u7")
unfolding manager
get_or_create_session-Reach_example =
    get_or_create_session-Reach home (at 1900000) "second" page_one page_two session_one
      page_one-Reach page_two-Reach session_one_lem refl

get_or_create_session-twice_example :
    let (m1, s1) = get_or_create_session home (at 1000) "first" page_two in
    (get_or_create_session home (at 1802000) "second" m1).1.id
    ≡ (if ltb 1800000 (1802000 - s1.last_active_at) then "second" else s1.id)
unfolding new_manager
get_or_create_session-twice_example =
    get_or_create_session-twice home home (at 1000) (at 1802000) "first" "second" page_two refl

get_dimension-apply_url_dimensions_example :
    get_dimension 3 (apply_url_dimensions ((3, "x") ∷ (4, "y") ∷ []) page_one)
    ≡ first_of (get_dimension 3 page_one) (some "x")
get_dimension-apply_url_dimensions_example =
    get_dimension-apply_url_dimensions ((3, "x") ∷ (4, "y") ∷ []) 3 page_one session_one
      session_one_lem
