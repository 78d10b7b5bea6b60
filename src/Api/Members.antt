-- ===== src/Api/Members.antt =====
-- api/src/members/members.service.ts: the members of workspaces. Here are the data and the guards,
-- in Service the methods. ClickHouse and its table of memberships are parameters, of which every call
-- succeeds, and the time of a call is an input. Times are milliseconds.
pub mod Service
pub mod Laws
pub mod Guards
pub mod Owners
pub mod Race
pub mod Roles
mod Tests
use staminads.Common.{
  ℕ, String, Bool, true, false, not, ◌&&◌, ◌||◌, Option, none, some, List, [], ◌∷◌, ◌++◌, ltb, leb,
  str_eq, filter, if◌then◌else◌,
}
use staminads.Common.Count.{count, find}
use staminads.Api.Permissions.{
  Role, owner, admin, editor, viewer, is_owner, role_hierarchy, can_modify_member,
}

pub record WorkspaceMembership : Type 0 where
  pub id : String
  pub workspace_id : String
  pub user_id : String
  pub role : Role
  pub invited_by : Option String
  pub joined_at : ℕ
  pub created_at : ℕ
  pub updated_at : ℕ

-- What UsersService.findById returns.
pub record User : Type 0 where
  pub user_key : String
  pub email : String
  pub name : String
  pub status : String

pub record MemberWithUser : Type 0 where
  pub membership : WorkspaceMembership
  pub user : User

-- The table of memberships: what `SELECT * … FINAL` returns, `insertSystem` of some rows and
-- `ALTER TABLE … DELETE WHERE id = …`, which only submits a mutation: ClickHouse does it in the
-- background. `settle` is the table once every mutation that was submitted is done.
pub record MembershipTable : Type 1 where
  pub Table : Type 0
  pub rows : Table → List WorkspaceMembership
  pub insert : List WorkspaceMembership → Table → Table
  pub delete_id : String → Table → Table
  pub settle : Table → Table

-- The exceptions of the service, with their messages.
pub data Refusal : Type 0 where
  not_found : String → Refusal
  bad_request : String → Refusal
  forbidden : String → Refusal

pub data Answer (A : Type 0) : Type 0 where
  ok : A → Answer A
  refused : Refusal → Answer A

pub record AuditEntry : Type 0 where
  pub actor : String
  pub workspace : String
  pub action : String
  pub target_type : String
  pub target_id : String
  pub metadata : List (String × String)

-- The tables that the service writes: memberships, users whose sessions it revokes, audit entries.
pub record World (db : MembershipTable) : Type 0 where
  pub memberships : db.Table
  pub revoked : List String
  pub audit : List AuditEntry

-- `workspace_id = … AND user_id = …`
abbrev pub is_of : String → String → WorkspaceMembership → Bool
is_of workspace user m = str_eq m.workspace_id workspace && str_eq m.user_id user

-- `workspace_id = … AND role = 'owner'`
abbrev pub is_owner_of : String → WorkspaceMembership → Bool
is_owner_of workspace m = str_eq m.workspace_id workspace && is_owner m.role

abbrev pub or_missing : {A : Type 0} → Refusal → Option A → Answer A
or_missing e none = refused e
or_missing e (some a) = ok a

-- `throw` when a guard holds, what follows otherwise
abbrev pub guard : {A : Type 0} → Bool → Refusal → Answer A → Answer A
guard true e rest = refused e
guard false e rest = rest

-- The later lines of a method, which a refusal skips.
abbrev pub and_then : {A B : Type 0} → Answer A → (A → Answer B) → Answer B
and_then (ok a) next = next a
and_then (refused e) next = refused e

abbrev pub member_with_user : WorkspaceMembership → User → MemberWithUser
member_with_user m u = record { membership = m; user = u }

-- The answer with the user's details, which is looked up last.
unfoldable pub with_user :
    (String → Option User) → String → WorkspaceMembership → Answer MemberWithUser
with_user find_by_id user m =
    and_then (or_missing (not_found "User not found") (find_by_id user))
      (λ u. ok (member_with_user m u))

-- The guards of updateRole, after the membership was found.
unfoldable pub check_update_role :
    WorkspaceMembership → String → Role → WorkspaceMembership → Answer WorkspaceMembership
check_update_role actor user role target =
    guard (str_eq actor.user_id user) (bad_request "Cannot modify your own role") (
      guard (not (can_modify_member actor.role target.role))
        (forbidden "Cannot modify a member with equal or higher role")
        (guard (is_owner role && not (is_owner actor.role))
          (forbidden "Only owners can promote members to owner")
          (guard
            (ltb (role_hierarchy actor.role) (role_hierarchy role)
              || (not (is_owner role) && leb (role_hierarchy actor.role) (role_hierarchy role)))
            (forbidden "Cannot promote a member to your role or higher") (ok target))))

-- The guards of remove; `owners` is what countOwners returns.
unfoldable pub check_remove :
    WorkspaceMembership → String → ℕ → WorkspaceMembership → Answer WorkspaceMembership
check_remove actor user owners target =
    guard (str_eq actor.user_id user)
      (bad_request "Cannot remove yourself. Use the leave endpoint instead")
      (guard (is_owner target.role && not (is_owner actor.role))
        (forbidden "Only owners can remove other owners")
        (guard (is_owner target.role && leb owners 1)
          (forbidden "Cannot remove the last owner. Transfer ownership first")
          (guard (not (is_owner target.role) && not (can_modify_member actor.role target.role))
            (forbidden "Cannot remove a member with equal or higher role") (ok target))))

-- The guard of leave.
unfoldable pub check_leave : ℕ → WorkspaceMembership → Answer WorkspaceMembership
check_leave owners m =
    guard (is_owner m.role && leb owners 1)
      (bad_request "Cannot leave as the last owner. Transfer ownership first") (ok m)

-- A new version of a row.
abbrev pub with_role : Role → ℕ → WorkspaceMembership → WorkspaceMembership
with_role role now m = record m { role = role; updated_at = now }

-- What a method writes when its guards let it, or nothing.
abbrev pub commit : {W A B : Type 0} → (A → W → W) → (A → Answer B) → Answer A → W → W × Answer B
commit write reply (ok a) w = (write a w, reply a)
commit write reply (refused e) w = (w, refused e)

abbrev pub insert_by_created :
    WorkspaceMembership → List WorkspaceMembership → List WorkspaceMembership
insert_by_created m [] = m ∷ []
insert_by_created m (n ∷ rest) =
    if leb m.created_at n.created_at then m ∷ n ∷ rest else n ∷ insert_by_created m rest

abbrev pub sort_by_created : List WorkspaceMembership → List WorkspaceMembership
sort_by_created [] = []
sort_by_created (m ∷ rest) = insert_by_created m (sort_by_created rest)

abbrev pub role_name : Role → String
role_name owner = "owner"
role_name admin = "admin"
role_name editor = "editor"
role_name viewer = "viewer"

-- `user_id` and `action`, the target's type and id, and the metadata.
abbrev pub entry : String → String → String → String → String → List (String × String) → AuditEntry
entry actor workspace action target_type target_id metadata = record {
  actor = actor;
  workspace = workspace;
  action = action;
  target_type = target_type;
  target_id = target_id;
  metadata = metadata;
}
