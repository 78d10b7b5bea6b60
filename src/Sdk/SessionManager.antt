-- ===== src/Sdk/SessionManager.antt =====
-- sdk/src/core/session.ts: which session a page belongs to, and the dimensions and the user that it
-- carries. The keys of storage that the manager uses are fields of a store, as a working storage
-- keeps them. The readings of Date.now, the generated ids and the page are arguments; texts have
-- their length in characters.
pub mod Types
pub mod Stored
pub mod Pages
pub mod Carried
pub mod UrlDimensions
mod Tests
use Prim.Native.String.{count}
use staminads.Common.{
  ℕ, suc, ◌+◌, ◌-◌, ◌/◌, String, Bool, true, false, ◌&&◌, ◌||◌, not, Option, none, some, List, [],
  ◌∷◌, ltb, leb, ◌==◌, str_eq, if◌then◌else◌,
}
use staminads.Common.Texts.{◌<>◌, decimal}
use staminads.Common.Dict.{Dict}
use staminads.Sdk.SessionManager.Types.{
  UtmParams, CustomDimensions, put_dimension, lookup_dimension, truthy_text, truthy_or_null,
  is_truthy_option, Session, Page, parse_utm_params, has_utm_values, max_dimension_length,
}

abbrev pub clock_skew_tolerance : ℕ
clock_skew_tolerance = 60

pub record CrossDomainInput : Type 0 where
  pub session_id : String
  pub timestamp : ℕ
  pub expiry : ℕ

pub record Config : Type 0 where
  pub workspace_id : String
  pub session_timeout : ℕ
  pub ad_click_ids : List String
  pub sdk_version : String

-- STORAGE_KEYS.SESSION, DIMENSIONS and USER_ID.
pub record Store : Type 0 where
  pub session : Option Session
  pub dimensions : Option CustomDimensions
  pub user_id : Option String

pub record SessionManager : Type 0 where
  pub store : Store
  pub tab_store : Option String
  pub config : Config
  pub session : Option Session
  pub tab_id : String
  pub cross_domain_input : Option CrossDomainInput

-- What getOrCreateTabId finds, or generates and keeps.
abbrev tab_id_or : String → Option String → String
tab_id_or uuid none = uuid
tab_id_or uuid (some tab) = if str_eq tab "" then uuid else tab

unfoldable pub new_manager : Config → String → Store → Option String → SessionManager
new_manager config uuid store tab_store = record {
  store = store;
  tab_store = some (tab_id_or uuid tab_store);
  config = config;
  session = none;
  tab_id = tab_id_or uuid tab_store;
  cross_domain_input = none;
}

unfoldable pub set_cross_domain_input : CrossDomainInput → SessionManager → SessionManager
set_cross_domain_input input m = record m { cross_domain_input = some input }

abbrev dimensions_or_none : Option CustomDimensions → CustomDimensions
dimensions_or_none none = []
dimensions_or_none (some dimensions) = dimensions

unfoldable pub load_dimensions : Store → CustomDimensions
load_dimensions store = dimensions_or_none store.dimensions

unfoldable pub load_user_id : Store → Option String
load_user_id store = truthy_or_null store.user_id

-- `this.session = session; this.saveSession()`
unfoldable pub save_session : Session → SessionManager → SessionManager
save_session s m = record m { store = record m.store { session = some s }; session = some s }

-- `this.session.dimensions = …`, then saveDimensions and saveSession.
unfoldable pub save_dimensions : CustomDimensions → Session → SessionManager → SessionManager
save_dimensions dimensions s m = record m {
  store = record m.store {
    dimensions = some dimensions;
    session = some (record s { dimensions = dimensions });
  };
  session = some (record s { dimensions = dimensions });
}

-- `this.session.userId = id`, then saveUserId, which removes the key for null, and saveSession.
unfoldable pub save_user_id : Option String → Session → SessionManager → SessionManager
save_user_id id s m = record m {
  store = record m.store { user_id = id; session = some (record s { user_id = id }) };
  session = some (record s { user_id = id });
}

-- The fields that a new session gets, whatever its id.
unfoldable pub fresh_session : Page → ℕ → String → SessionManager → Session
fresh_session page now id m =
    let utm = parse_utm_params page.params m.config.ad_click_ids in
    record {
      id = id;
      workspace_id = m.config.workspace_id;
      created_at = now;
      updated_at = now;
      last_active_at = now;
      focus_duration_ms = 0;
      total_duration_ms = 0;
      referrer = truthy_text page.referrer;
      landing_page = page.href;
      utm = if has_utm_values utm then some utm else none;
      max_scroll_percent = 0;
      interaction_count = 0;
      sdk_version = m.config.sdk_version;
      sequence = 0;
      dimensions = load_dimensions m.store;
      user_id = load_user_id m.store;
    }

unfoldable pub create_session : Page → ℕ → String → SessionManager → SessionManager × Session
create_session page now uuid m = let s = fresh_session page now uuid m in (save_session s m, s)

-- `now` in milliseconds; the age of an input from the future is negative and passes the first test.
unfoldable pub is_valid_cross_domain : ℕ → CrossDomainInput → Bool
is_valid_cross_domain now input =
    not (ltb input.expiry (now / 1000 - input.timestamp))
    && not (ltb (now / 1000 + clock_skew_tolerance) input.timestamp)

-- `Date.now() - session.last_active_at > sessionTimeout`, which a time before that is not.
unfoldable pub is_session_expired : ℕ → ℕ → Session → Bool
is_session_expired timeout now s = ltb timeout (now - s.last_active_at)

-- The readings of Date.now in one call of getOrCreateSession.
pub record Clock : Type 0 where
  pub cross : ℕ
  pub check : ℕ
  pub active : ℕ
  pub update : ℕ
  pub create : ℕ

abbrev pub resumed : Clock → Session → Session
resumed clock s = record s {
  last_active_at = clock.active;
  updated_at = clock.update;
  sequence = suc s.sequence;
}

module _ (page : Page) (clock : Clock) (uuid : String) where
  abbrev pub resume_or_create : Option Session → SessionManager → SessionManager × Session
  resume_or_create none m = create_session page clock.create uuid m
  resume_or_create (some s) m =
      if is_session_expired m.config.session_timeout clock.check s
      then create_session page clock.create uuid m
      else (save_session (resumed clock s) m, resumed clock s)

  abbrev pub after_cross_domain :
      Option CrossDomainInput → SessionManager → SessionManager × Session
  after_cross_domain none m = resume_or_create m.store.session m
  after_cross_domain (some input) m =
      if is_valid_cross_domain clock.cross input
      then create_session page clock.create input.session_id m
      else resume_or_create m.store.session m

  unfoldable pub get_or_create_session : SessionManager → SessionManager × Session
  get_or_create_session m = after_cross_domain m.cross_domain_input m

-- `if (!this.session) return;`
abbrev pub if_session :
    (Session → SessionManager) → Option Session → SessionManager → SessionManager
if_session f none m = m
if_session f (some s) m = f s

-- `fields` is what Object.assign writes of the given updates.
unfoldable pub update_session : (Session → Session) → ℕ → ℕ → SessionManager → SessionManager
update_session fields updated active m =
    if_session
      (λ s. save_session (record (fields s) { updated_at = updated; last_active_at = active }) m)
      m.session m

unfoldable pub get_session_id : SessionManager → String
get_session_id m = elim m.session [ none ↦ "" | some s ↦ s.id ]

pub data DimensionError : Type 0 where
  bad_index too_long : DimensionError

abbrev pub dimension_error : ℕ → String → Option DimensionError
dimension_error index v =
    if ltb index 1 || ltb 10 index
    then some bad_index
    else if ltb max_dimension_length (count v)
    then some too_long
    else none

abbrev pub unless_error :
    Option DimensionError → SessionManager → SessionManager → SessionManager × Option DimensionError
unless_error (some e) before after = (before, some e)
unless_error none before after = (after, none)

-- The manager afterwards, and the error that it throws.
unfoldable pub set_dimension : ℕ → String → SessionManager → SessionManager × Option DimensionError
set_dimension index v m =
    unless_error (dimension_error index v) m
      (if_session (λ s. save_dimensions (put_dimension s.dimensions index v) s m) m.session m)

abbrev pub go_on :
    Option DimensionError
    → SessionManager
    → SessionManager × Option DimensionError
    → SessionManager × Option DimensionError
go_on none before later = later
go_on (some e) before later = (before, some e)

-- A throw in the loop leaves the dimensions before it set.
unfoldable pub set_dimensions :
    CustomDimensions → SessionManager → SessionManager × Option DimensionError
set_dimensions [] m = (m, none)
set_dimensions ((index, v) ∷ rest) m =
    let later = set_dimensions rest (set_dimension index v m).0 in
    go_on (set_dimension index v m).1 m later

unfoldable pub get_dimension : ℕ → SessionManager → Option String
get_dimension index m = elim m.session [
  | none ↦ none
  | some s ↦ truthy_or_null (lookup_dimension s.dimensions index)
]

unfoldable pub clear_dimensions : SessionManager → SessionManager
clear_dimensions m = if_session (λ s. save_dimensions [] s m) m.session m

abbrev payload_fields : CustomDimensions → Dict String
payload_fields [] = []
payload_fields ((index, v) ∷ rest) = ("stm_" <> decimal index, v) ∷ payload_fields rest

unfoldable pub get_dimensions_payload : SessionManager → Dict String
get_dimensions_payload m = elim m.session [ none ↦ [] | some s ↦ payload_fields s.dimensions ]

abbrev pub is_long_id : Option String → Bool
is_long_id none = false
is_long_id (some id) = ltb 256 (count id)

-- Whether it throws comes second.
unfoldable pub set_user_id : Option String → SessionManager → SessionManager × Bool
set_user_id id m =
    if is_long_id id then (m, true) else (if_session (λ s. save_user_id id s m) m.session m, false)

unfoldable pub get_user_id : SessionManager → Option String
get_user_id m = elim m.session [ none ↦ none | some s ↦ s.user_id ]

-- The loop of applyUrlDimensions on the dimensions of the session, and whether it changed them.
unfoldable pub fill_dimensions : CustomDimensions → CustomDimensions → CustomDimensions × Bool
fill_dimensions current [] = (current, false)
fill_dimensions current ((index, v) ∷ rest) =
    let kept = fill_dimensions current rest in
    let filled = fill_dimensions (put_dimension current index v) rest in
    if is_truthy_option (lookup_dimension current index) then kept else (filled.0, true)

unfoldable pub apply_url_dimensions : CustomDimensions → SessionManager → SessionManager
apply_url_dimensions url_dimensions m =
    if_session
      (λ s.
        if (fill_dimensions s.dimensions url_dimensions).1
        then save_dimensions (fill_dimensions s.dimensions url_dimensions).0 s m
        else m)
      m.session m

unfoldable pub reset : Page → ℕ → String → SessionManager → SessionManager × Session
reset page now uuid m = create_session page now uuid (record m {
  store = record { session = none; dimensions = none; user_id = none };
  session = none;
})
