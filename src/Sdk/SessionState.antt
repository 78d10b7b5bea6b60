-- ===== src/Sdk/SessionState.antt =====
-- sdk/src/core/session-state.ts: the cumulative list of a session's actions. Each method is a
-- function of the object's fields; what the browser supplies at a call (`Date.now()`, the page's
-- focus time) comes in as an `Instant`.
pub mod PageNumbers
pub mod Invariant
pub mod Preservation
pub mod Persistence
pub mod Lifetime
pub mod Navigation
mod Tests
pub mod Acceptance
use staminads.Common.{
  ℕ, ◌+◌, ◌-◌, String, Bool, true, false, Option, none, some, List, [], ◌∷◌, ◌++◌, ltb, leb, length,
  get_elem?, modify, if◌then◌else◌, str_eq, ◌==◌,
}
use staminads.Common.Dict.{Dict}
use staminads.Common.Int.{ℤ, pos, negsuc}

pub record PageviewAction : Type 0 where
  pub path : String
  pub page_number : ℕ
  pub duration : ℕ
  pub scroll : ℕ
  pub entered_at : ℕ
  pub exited_at : ℕ

pub record GoalAction : Type 0 where
  pub name : String
  pub path : String
  pub page_number : ℕ
  pub timestamp : ℕ
  pub value : Option ℤ
  pub properties : Option (Dict String)

pub data Action : Type 0 where
  pageview : PageviewAction → Action
  goal : GoalAction → Action

abbrev pub page_number : Action → ℕ
page_number (pageview p) = p.page_number
page_number (goal g) = g.page_number

abbrev pub action_path : Action → String
action_path (pageview p) = p.path
action_path (goal g) = g.path

-- What the browser answers at one moment: the clock, and the SDK's focus time of the page.
pub record Instant : Type 0 where
  pub now : ℕ
  pub page_active_ms : ℕ

abbrev pub max_actions : ℕ
max_actions = 1000

pub record SessionStateConfig : Type 0 where
  pub workspace_id : String
  pub session_id : String
  pub created_at : ℕ

pub record SessionState : Type 0 where
  pub actions : List Action
  pub current_page_index : Option ℕ
  pub get_page_focus_ms : Option (Instant → ℕ)
  pub workspace_id : String
  pub session_id : String
  pub created_at : ℕ

abbrev pub new : SessionStateConfig → SessionState
new config = record {
  actions = [];
  current_page_index = none;
  get_page_focus_ms = none;
  workspace_id = config.workspace_id;
  session_id = config.session_id;
  created_at = config.created_at;
}

abbrev pub set_focus_time_getter : (Instant → ℕ) → SessionState → SessionState
set_focus_time_getter getter s = record s { get_page_focus_ms = some getter }

pub record CurrentPage : Type 0 where
  pub path : String
  pub page_number : ℕ
  pub entered_at : ℕ
  pub scroll : ℕ

page_info : Option Action → Option CurrentPage
page_info none = none
page_info (some (goal g)) = none
page_info (some (pageview p)) = some (record {
  path = p.path;
  page_number = p.page_number;
  entered_at = p.entered_at;
  scroll = p.scroll;
})

unfoldable pub get_current_page : SessionState → Option CurrentPage
unfolding page_info
get_current_page s = elim s.current_page_index [
  | none ↦ none
  | some i ↦ page_info (get_elem? s.actions i)
]

-- `this.getPageFocusMs ? this.getPageFocusMs() : 0`
abbrev pub focus_ms : SessionState → Instant → ℕ
focus_ms s t = elim s.get_page_focus_ms [ none ↦ 0 | some getter ↦ getter t ]

-- The two writes that end a pageview; a goal at the index is left alone.
abbrev pub close_action : ℕ → ℕ → Action → Action
close_action duration exit_time (pageview p) =
    pageview (record p { duration = duration; exited_at = exit_time })
close_action duration exit_time (goal g) = goal g

unfoldable pub finalize_current_page_duration : Instant → ℕ → SessionState → SessionState
finalize_current_page_duration t exit_time s = elim s.current_page_index [
  | none ↦ s
  | some i ↦ record s { actions = modify s.actions i (close_action (focus_ms s t) exit_time) }
]

-- The loop of `getNextPageNumber`.
unfoldable pub max_page_number : ℕ → List Action → ℕ
max_page_number acc [] = acc
max_page_number acc (a ∷ rest) =
    max_page_number (if ltb acc (page_number a) then page_number a else acc) rest

unfoldable pub get_next_page_number : SessionState → ℕ
get_next_page_number s = max_page_number 0 s.actions + 1

abbrev pub new_pageview : String → ℕ → ℕ → PageviewAction
new_pageview path number now = record {
  path = path;
  page_number = number;
  duration = 0;
  scroll = 0;
  entered_at = now;
  exited_at = now;
}

-- `this.actions.push(a)`
abbrev pub push : Action → SessionState → SessionState
push a s = record s { actions = s.actions ++ a ∷ [] }

unfoldable pub add_pageview : String → Instant → SessionState → SessionState
add_pageview path t s =
    if leb max_actions (length s.actions)
    then s
    else let closed = finalize_current_page_duration t t.now s in
      let pushed = push (pageview (new_pageview path (get_next_page_number closed) t.now)) closed in
      record pushed { current_page_index = some (length pushed.actions - 1) }

-- `Math.max(0, Math.min(100, scrollPercent))`
abbrev pub clamp_percent : ℤ → ℕ
clamp_percent (pos n) = if ltb n 100 then n else 100
clamp_percent (negsuc n) = 0

abbrev pub raise_scroll : ℕ → Action → Action
raise_scroll clamped (pageview p) =
    if ltb p.scroll clamped then pageview (record p { scroll = clamped }) else pageview p
raise_scroll clamped (goal g) = goal g

unfoldable pub update_scroll : ℤ → SessionState → SessionState
update_scroll scroll_percent s = elim s.current_page_index [
  | none ↦ s
  | some i ↦ record s { actions = modify s.actions i (raise_scroll (clamp_percent scroll_percent)) }
]

-- `e || '/'` and `e || 1`, where `e` may be undefined.
abbrev pub path_or_root : Option Action → String
path_or_root none = "/"
path_or_root (some a) = if str_eq (action_path a) "" then "/" else action_path a

abbrev pub number_or_one : Option Action → ℕ
number_or_one none = 1
number_or_one (some a) = if page_number a == 0 then 1 else page_number a

abbrev pub current_action : SessionState → Option Action
current_action s = elim s.current_page_index [ none ↦ none | some i ↦ get_elem? s.actions i ]

unfoldable pub add_goal :
    String → Option ℤ → Option (Dict String) → ℕ → SessionState → SessionState × Bool
add_goal name value properties now s =
    if leb max_actions (length s.actions)
    then (s, false)
    else let current = current_action s in
      (
        push
            (goal (record {
              name = name;
              path = path_or_root current;
              page_number = number_or_one current;
              timestamp = now;
              value = value;
              properties = properties;
            }))
            s,
        true,
      )

-- `user_id` and `dimensions` are absent (`none`) unless the options give them; a user id that is
-- given may be null.
pub record PayloadOptions : Type 0 where
  pub user_id : Option (Option String)
  pub dimensions : Option (Dict String)

-- The attributes are passed through, so they may be of any type.
pub record SessionPayload (Attributes : Type 0) : Type 0 where
  pub workspace_id : String
  pub session_id : String
  pub actions : List Action
  pub attributes : Attributes
  pub created_at : ℕ
  pub updated_at : ℕ
  pub sdk_version : String
  pub user_id : Option (Option String)
  pub dimensions : Option (Dict String)

abbrev pub option_user_id : Option PayloadOptions → Option (Option String)
option_user_id none = none
option_user_id (some o) = o.user_id

abbrev pub option_dimensions : Option PayloadOptions → Option (Dict String)
option_dimensions none = none
option_dimensions (some o) = o.dimensions

-- `sdk_version` is the constant that the build puts in. `t` is the moment at which the current
-- page is brought up to date, and `updated_at` the clock when the payload is made.
unfoldable pub build_payload :
    {A : Type 0}
    → String
    → A
    → Option PayloadOptions
    → Instant
    → ℕ
    → SessionState
    → SessionState × SessionPayload A
build_payload sdk_version attributes options t updated_at s =
    let s' = finalize_current_page_duration t t.now s in
    (
      s',
      record {
        workspace_id = s'.workspace_id;
        session_id = s'.session_id;
        actions = s'.actions;
        attributes = attributes;
        created_at = s'.created_at;
        updated_at = updated_at;
        sdk_version = sdk_version;
        user_id = option_user_id options;
        dimensions = option_dimensions options;
      },
    )

unfoldable pub finalize_for_unload : Instant → SessionState → SessionState
finalize_for_unload t s = record (finalize_current_page_duration t t.now s) {
  current_page_index = none;
}
