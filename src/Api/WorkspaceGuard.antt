-- ===== src/Api/WorkspaceGuard.antt =====
-- api/src/common/guards/workspace.guard.ts: who may reach a workspace. A request is authenticated
-- already; the fields of its body and query that the guard reads are texts or absent.
pub mod Access
pub mod Deletion
mod Tests
use Prim.Native.String
use staminads.Common.{
  ℕ, String, Bool, true, false, not, ◌&&◌, Option, none, some, ◌≡◌, str_eq, if◌then◌else◌,
}
use staminads.Api.Permissions.{Role, owner, Permission, has_permission}
use staminads.Api.Members.{
  WorkspaceMembership, MembershipTable, Answer, Refusal, ok, refused, bad_request, forbidden, guard,
  and_then, or_missing,
}
use staminads.Api.Filters.Service.{FilterStore, delete}
use staminads.Api.Members.Service.{get_membership}

-- The fields of a body or of a query.
pub record Fields : Type 0 where
  pub workspace_id : Option String
  pub workspace_id_camel : Option String
  pub id : Option String

-- `request.user`: an API key with its id, workspace and role, or a user.
pub data Caller : Type 0 where
  api_key : String → String → Role → Caller
  jwt_user : String → Bool → Caller

pub record Request : Type 0 where
  pub caller : Caller
  pub body : Fields
  pub query : Fields

-- `||` between fields: an absent or empty one is passed over.
abbrev pub or_else : Option String → Option String → Option String
or_else none next = next
or_else (some text) next = if str_eq text "" then next else some text

-- The field that is taken, unless all are passed over.
unfoldable pub workspace_of : Request → Option String
workspace_of r = or_else r.body.workspace_id (
    or_else r.body.workspace_id_camel (
      or_else r.body.id (
        or_else r.query.workspace_id
          (or_else r.query.workspace_id_camel (or_else r.query.id none)))))

-- A membership that is made up for an API key or a super admin.
abbrev pub synthetic : String → String → String → Role → ℕ → WorkspaceMembership
synthetic id workspace user role now = record {
  id = id;
  workspace_id = workspace;
  user_id = user;
  role = role;
  invited_by = none;
  joined_at = now;
  created_at = now;
  updated_at = now;
}

-- `requiredPermission && !hasPermission(role, requiredPermission)`
abbrev pub lacks : Option Permission → Role → Bool
lacks none role = false
lacks (some permission) role = not (has_permission role permission)

abbrev pub key_user : String → String
key_user key = String.◌++◌ "api-key:" key

module _ (db : MembershipTable) where
  -- The three kinds of callers, once the workspace is known.
  unfoldable pub authorize :
      Caller → Option Permission → ℕ → db.Table → String → Answer WorkspaceMembership
  authorize (api_key key bound role) required now t workspace =
      guard (not (str_eq workspace bound)) (forbidden "API key not authorized for this workspace") (
        guard (lacks required role) (forbidden "API key has insufficient permissions")
          (ok (synthetic (key_user key) workspace (key_user key) role now)))
  authorize (jwt_user user true) required now t workspace =
      ok (synthetic "super-admin" workspace user owner now)
  authorize (jwt_user user false) required now t workspace =
      and_then
        (or_missing (forbidden "Not a member of this workspace")
          (get_membership db workspace user t))
        (λ m. guard (lacks required m.role) (forbidden "Insufficient permissions") (ok m))

  -- The membership that is attached to the request, or the refusal.
  unfoldable pub can_activate :
      Option Permission → ℕ → db.Table → Request → Answer WorkspaceMembership
  can_activate required now t r =
      and_then (or_missing (bad_request "workspace_id is required") (workspace_of r))
        (authorize r.caller required now t)

  -- FiltersController.delete behind its guards, DemoRestrictedGuard the second. What becomes of a
  -- query without a workspace is up to ClickHouse; without an id it finds no filter, since the ids
  -- are UUIDs.
  abbrev pub delete_of_query :
      Refusal → Option String → Option String → FilterStore → FilterStore × Answer Unit
  delete_of_query no_workspace none id s = (s, refused no_workspace)
  delete_of_query no_workspace (some workspace) none s = delete workspace "undefined" s
  delete_of_query no_workspace (some workspace) (some id) s = delete workspace id s

  abbrev pub behind :
      Answer WorkspaceMembership
      → Bool
      → FilterStore
      → FilterStore × Answer Unit
      → FilterStore × Answer Unit
  behind (refused e) is_demo s done = (s, refused e)
  behind (ok m) true s done = (s, refused (bad_request "This feature is disabled in demo"))
  behind (ok m) false s done = done

  unfoldable pub filters_delete :
      Refusal → Bool → ℕ → db.Table → Request → FilterStore → FilterStore × Answer Unit
  filters_delete no_workspace is_demo now t r s =
      behind (can_activate none now t r) is_demo s
        (delete_of_query no_workspace r.query.workspace_id r.query.id s)
