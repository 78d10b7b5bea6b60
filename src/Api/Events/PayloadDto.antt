-- ===== src/Api/Events/PayloadDto.antt =====
-- The validation of a payload's actions at /api/track (api/src/events/dto/session-payload.dto.ts
-- with api/src/common/validators/compare.validator.ts): each decorator is one test.
use Prim.Native.String.{count}
use staminads.Common.{
  ℕ, Bool, true, false, ◌&&◌, not, Option, none, some, List, leb, all, length, str_eq,
}
use staminads.Common.Int.{ℤ, pos, negsuc}
use staminads.Sdk.SessionState.{PageviewAction, GoalAction, Action, pageview, goal}

abbrev pub max_actions : ℕ
max_actions = 1000

abbrev pub max_path_length : ℕ
max_path_length = 2048

abbrev pub max_goal_name_length : ℕ
max_goal_name_length = 100

-- validator of `IsGreaterThanOrEqual`
abbrev pub is_greater_than_or_equal : ℕ → ℕ → Bool
is_greater_than_or_equal value related = leb related value

unfoldable pub pageview_ok : PageviewAction → Bool
pageview_ok p =
    leb (count p.path) max_path_length
    && (leb 1 p.page_number
        && (leb 0 p.duration
            && (leb 0 p.scroll
                && (leb p.scroll 100 && is_greater_than_or_equal p.exited_at p.entered_at))))

abbrev pub value_ok : Option ℤ → Bool
value_ok none = true
value_ok (some (pos n)) = true
value_ok (some (negsuc n)) = false

unfoldable pub goal_ok : GoalAction → Bool
goal_ok g =
    not (str_eq g.name "")
    && (leb (count g.name) max_goal_name_length
        && (leb (count g.path) max_path_length && (leb 1 g.page_number && value_ok g.value)))

unfoldable pub action_ok : Action → Bool
unfolding pageview_ok goal_ok
action_ok (pageview p) = pageview_ok p
action_ok (goal g) = goal_ok g

unfoldable pub actions_ok : List Action → Bool
actions_ok actions = leb (length actions) max_actions && all action_ok actions
