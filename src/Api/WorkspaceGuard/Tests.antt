-- ===== src/Api/WorkspaceGuard/Tests.antt =====
-- Requests at the guard of api/src/common/guards/workspace.guard.ts.
use staminads.Common.{String, true, false, none, some, List, [], ◌∷◌, ◌≡◌, refl}
use staminads.Api.Permissions.{viewer, analytics_view, has_permission}
use staminads.Api.Members.{WorkspaceMembership, MembershipTable, ok, not_found}
use staminads.Api.Filters.Evaluator.{FilterDefinition}
use staminads.Api.Filters.Service.{FilterStore}
use staminads.Common.Dict.{get}
use staminads.Api.Members.Service.{get_membership}
use staminads.Api.WorkspaceGuard.{
  Request, Fields, jwt_user, workspace_of, authorize, can_activate, filters_delete,
}
use staminads.Api.WorkspaceGuard.Access.{IsEntitled, can_activate-IsEntitled}
use staminads.Api.WorkspaceGuard.Deletion.{filters_delete-other_workspace}

-- A table that nothing writes to in these runs.
abbrev fixed_table : MembershipTable
fixed_table = record {
  Table = List WorkspaceMembership;
  rows = λ t. t;
  insert = λ new t. t;
  delete_id = λ id t. t;
  settle = λ t. t;
}

abbrev mia : WorkspaceMembership
mia = record {
  id = "m1";
  workspace_id = "mine";
  user_id = "mia";
  role = viewer;
  invited_by = none;
  joined_at = 1;
  created_at = 1;
  updated_at = 1;
}

abbrev absent : Fields
absent = record { workspace_id = none; workspace_id_camel = none; id = none }

-- Mia names her own workspace in the body and another in the query.
abbrev mixed : Request
mixed = record {
  caller = jwt_user "mia" false;
  body = record absent { workspace_id = some "mine" };
  query = record absent { workspace_id = some "theirs"; id = some "f1" };
}

mixed_activates : can_activate fixed_table (some analytics_view) 9 (mia ∷ []) mixed ≡ ok mia
unfolding can_activate workspace_of authorize get_membership has_permission
mixed_activates = refl

can_activate-IsEntitled_example :
    (workspace : String) × (workspace_of mixed ≡ some workspace)
    × IsEntitled fixed_table (jwt_user "mia" false) (some analytics_view) (mia ∷ []) workspace mia
can_activate-IsEntitled_example =
    can_activate-IsEntitled fixed_table (some analytics_view) 9 (mia ∷ []) mixed mia mixed_activates

abbrev their_filter : FilterDefinition
their_filter = record {
  id = "f1";
  name = "campaigns";
  priority = 1;
  order = 1;
  tags = [];
  conditions = [];
  operations = [];
  enabled = true;
  version = "v";
  created_at = "";
  updated_at = "";
}

abbrev shared_store : FilterStore
shared_store = record {
  workspaces = ("mine", []) ∷ ("theirs", their_filter ∷ []) ∷ [];
  emitted = [];
}

-- Mia is no member of the workspace of the query.
mia_is_no_member : get_membership fixed_table "theirs" "mia" (mia ∷ []) ≡ none
unfolding get_membership
mia_is_no_member = refl

filters_delete-other_workspace_example :
    let answer =
      filters_delete fixed_table (not_found "no workspace") false 9 (mia ∷ []) mixed shared_store in
    (answer.1 ≡ ok tt)
    × (get answer.0.workspaces "theirs" ≡ some [])
    × (false ≡ false)
    × (get answer.0.workspaces "mine" ≡ some [])
unfolding get_membership get
filters_delete-other_workspace_example =
    filters_delete-other_workspace fixed_table (not_found "no workspace") "mia" 9 (mia ∷ []) mixed
      "mine" "theirs" "f1" mia (their_filter ∷ []) shared_store refl refl refl refl refl refl refl
      refl refl
