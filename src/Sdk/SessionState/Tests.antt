-- ===== src/Sdk/SessionState/Tests.antt =====
-- Runs of SessionState (sdk/src/core/session-state.ts) on small sessions, and each theorem at one.
use staminads.Common.{
  ℕ, ◌<◌, ◌/◌, String, ◌≡◌, ◌≢◌, refl, true, false, none, some, [], ◌∷◌, arith, All, length,
  get_elem?, eq_iff,
}
use staminads.Common.Int.{pos}
use staminads.Sdk.SessionState.{
  PageviewAction, pageview, goal, Instant, SessionState, SessionStateConfig, new,
  set_focus_time_getter, add_pageview, update_scroll, add_goal, build_payload, finalize_for_unload,
  get_current_page, get_next_page_number, max_actions, finalize_current_page_duration,
  max_page_number,
}
use staminads.Sdk.SessionState.Invariant.{IsValid}
use staminads.Sdk.SessionState.Persistence.{StoredState, Json, persist, restore, restore-persist}
use staminads.Sdk.SessionState.Lifetime.{
  set_getter, here, next, page, scroll, add, Reach, Reach-IsValid,
}
use staminads.Sdk.SessionState.Acceptance.{
  HasFittingInput, build_payload-actions_ok, add_goal-long_name,
}
use staminads.Api.Events.PayloadDto.{actions_ok}
use staminads.Api.SessionHandler.Event.{dedup_token}
use staminads.Api.SessionHandler.Event.Tokens.{dedup_token-Reach}

session_state : Unit {0}
unfolding add_pageview update_scroll add_goal build_payload finalize_for_unload get_current_page
    get_next_page_number persist restore actions_ok finalize_current_page_duration max_page_number
session_state = tt

abbrev config : SessionStateConfig
config = record { workspace_id = "ws"; session_id = "s1"; created_at = 100 }

abbrev at : ℕ → Instant
at n = record { now = n; page_active_ms = n / 2 }

-- A visit: home, scrolled to 40, then the price page and a goal there.
abbrev home : SessionState
home = add_pageview "/" (at 100) (set_focus_time_getter (λ t. t.page_active_ms) (new config))

abbrev priced : SessionState
priced = add_pageview "/price" (at 160) (update_scroll (pos 40) home)

abbrev bought : SessionState
bought = (add_goal "buy" (some (pos 9)) none 170 priced).0

home_then_price :
    priced.actions
    ≡ pageview (record {
      path = "/";
      page_number = 1;
      duration = 80;
      scroll = 40;
      entered_at = 100;
      exited_at = 160;
    })
      ∷ pageview (record {
        path = "/price";
        page_number = 2;
        duration = 0;
        scroll = 0;
        entered_at = 160;
        exited_at = 160;
      })
      ∷ []
unfolding session_state
home_then_price = refl

goal_on_price :
    get_elem? bought.actions 2
    ≡ some (
        goal (record {
          name = "buy";
          path = "/price";
          page_number = 2;
          timestamp = 170;
          value = some (pos 9);
          properties = none;
        }))
unfolding session_state
goal_on_price = refl

scroll_is_clamped :
    get_current_page (update_scroll (pos 250) home)
    ≡ some (record { path = "/"; page_number = 1; entered_at = 100; scroll = 100 })
unfolding session_state
scroll_is_clamped = refl

no_page_after_unload : get_current_page (finalize_for_unload (at 200) bought) ≡ none
unfolding session_state
no_page_after_unload = refl

abbrev visit : Reach config 160 bought
visit =
    next
      (next
        (next
          (next (next here (set_getter (λ t. t.page_active_ms)))
            (page "/" (at 100) (omega arith) refl))
          (scroll (pos 40)))
        (page "/price" (at 160) (omega arith) refl))
      (add "buy" (some (pos 9)) none 170)

Reach-IsValid_example : IsValid 160 bought
Reach-IsValid_example = Reach-IsValid config 160 bought visit

fitting_input :
    All HasFittingInput (build_payload {A = Unit {0}} "1.0" tt none (at 200) 201 bought).1.actions
unfolding session_state
fitting_input = ground (arith, eq_iff "buy" "")

build_payload-actions_ok_example :
    actions_ok (build_payload {A = Unit {0}} "1.0" tt none (at 200) 201 bought).1.actions ≡ true
build_payload-actions_ok_example =
    build_payload-actions_ok config 160 bought "1.0" tt none (at 200) 201 visit (omega arith)
      fitting_input

abbrev long_name : String
long_name =
    "aaaaaaaaaaaaaaaaaaaaaaaaaaaaaaaaaaaaaaaaaaaaaaaaaaaaaaaaaaaaaaaaaaaaaaaaaaaaaaaaaaaaaaaaaaaaaaaaaaaaa"

abbrev spoilt : SessionState
spoilt = (add_goal long_name none none 180 bought).0

room_in_bought : length bought.actions < max_actions
unfolding session_state
room_in_bought = omega arith

add_goal-long_name_example :
    actions_ok
      (build_payload {A = Unit {0}} "1.0" tt none
        (at 200)
        201
        (update_scroll (pos 5) spoilt)).1.actions
    ≡ false
add_goal-long_name_example =
    add_goal-long_name long_name none none 180 160 160 bought (update_scroll (pos 5) spoilt) "1.0"
      tt none (at 200) 201 (omega arith) room_in_bought (next here (scroll (pos 5)))

-- A codec that keeps the object as it is.
abbrev plain_json : Json
plain_json = record {
  Text = StoredState;
  stringify = λ d. d;
  parse = λ d. some d;
  is_empty = λ d. false;
  parse-stringify = λ d. refl;
  is_empty-stringify = λ d. refl;
}

restore-persist_example : restore plain_json (new config) (persist plain_json true bought none) ≡ (
  record (new config) { actions = bought.actions; current_page_index = bought.current_page_index },
  persist plain_json true bought none,
)
unfolding session_state
restore-persist_example = restore-persist plain_json bought (new config) none refl

abbrev other_config : SessionStateConfig
other_config = record { workspace_id = "ws"; session_id = "s2"; created_at = 900 }

abbrev home_page : PageviewAction
home_page = record {
  path = "/";
  page_number = 1;
  duration = 80;
  scroll = 40;
  entered_at = 100;
  exited_at = 160;
}

abbrev price_page : PageviewAction
price_page = record {
  path = "/price";
  page_number = 2;
  duration = 0;
  scroll = 0;
  entered_at = 160;
  exited_at = 160;
}

pages_of_visit :
    (get_elem? bought.actions 0 ≡ some (pageview home_page))
    × (get_elem? bought.actions 1 ≡ some (pageview price_page))
unfolding session_state
pages_of_visit = (refl, refl)

dedup_token-Reach_example :
    dedup_token bought.session_id (pageview home_page)
    ≢ dedup_token bought.session_id (pageview price_page)
dedup_token-Reach_example =
    dedup_token-Reach config 160 bought 0 1 home_page price_page visit (omega arith)
      pages_of_visit.0 pages_of_visit.1
