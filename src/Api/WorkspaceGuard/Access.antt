-- ===== src/Api/WorkspaceGuard/Access.antt =====
-- What it means that the guard of api/src/common/guards/workspace.guard.ts lets a request through.
use mathlib.Core.Path.{subst}
use staminads.Common.{
  ℕ, String, true, false, not, Option, none, some, ◌≡◌, ◌∙◌, ap, arith, str_eq, eq_iff,
}
use staminads.Api.Permissions.{Role, Permission, has_permission}
use staminads.Api.Members.{WorkspaceMembership, MembershipTable, ok}
use staminads.Api.Members.Service.{get_membership}
use staminads.Api.Members.Guards.{found_and_ok, guard_passed, answer_or}
use staminads.Api.WorkspaceGuard.{
  Caller, api_key, jwt_user, Request, workspace_of, lacks, authorize, can_activate,
}

-- The permission is not asked for, or the role has it.
abbrev pub Allows : Option Permission → Role → Type 0
Allows none role = Unit
Allows (some permission) role = has_permission role permission ≡ true

Allows-lacks :
    (required : Option Permission) (role : Role)
    → lacks required role ≡ false
    → Allows required role
Allows-lacks none role h = tt
Allows-lacks (some permission) role h = ground arith

-- What a caller must be, to get a membership of a workspace.
abbrev pub IsEntitled :
    (db : MembershipTable)
    → Caller
    → Option Permission
    → db.Table
    → String
    → WorkspaceMembership
    → Type 0
IsEntitled db (api_key key bound role) required t workspace m =
    (workspace ≡ bound) × (m.role ≡ role) × Allows required role
IsEntitled db (jwt_user user true) required t workspace m = m.workspace_id ≡ workspace
IsEntitled db (jwt_user user false) required t workspace m =
    (get_membership db workspace user t ≡ some m) × Allows required m.role

module _ (db : MembershipTable) where
  authorize-IsEntitled :
      (caller : Caller) (required : Option Permission) (now : ℕ) (t : db.Table) (workspace : String)
      (m : WorkspaceMembership)
      → authorize db caller required now t workspace ≡ ok m
      → IsEntitled db caller required t workspace m
  unfolding authorize
  authorize-IsEntitled (api_key key bound role) required now t workspace m h =
      let (here, k) = guard_passed (not (str_eq workspace bound)) _ _ m h in
      let (allowed, k') = guard_passed (lacks required role) _ _ m k in
      (ground (arith, eq_iff workspace bound), ground arith, Allows-lacks required role allowed)
  authorize-IsEntitled (jwt_user user true) required now t workspace m h = ground arith
  authorize-IsEntitled (jwt_user user false) required now t workspace m h =
      let (a, e, k) = found_and_ok _ (get_membership db workspace user t) _ m h in
      let (allowed, k') = guard_passed (lacks required a.role) _ _ m k in
      let same = ap (answer_or a) k' in
      (
        e ∙ ap some same,
        subst (λ (x : WorkspaceMembership). Allows required x.role) same
            (Allows-lacks required a.role allowed),
      )

  -- A request that the guard lets through names a workspace, and the caller is entitled to it: an
  -- API key is bound to it and its role has the permission asked for; a user is a super admin or a
  -- member of it whose role has the permission. The membership attached is the member's own.
  pub can_activate-IsEntitled :
      (required : Option Permission) (now : ℕ) (t : db.Table) (r : Request)
      (m : WorkspaceMembership)
      → can_activate db required now t r ≡ ok m
      → (workspace : String) × (workspace_of r ≡ some workspace)
        × IsEntitled db r.caller required t workspace m
  unfolding can_activate
  can_activate-IsEntitled required now t r m h =
      let (workspace, e, k) =
        found_and_ok _ (workspace_of r) (authorize db r.caller required now t) m h in
      (workspace, e, authorize-IsEntitled r.caller required now t workspace m k)
