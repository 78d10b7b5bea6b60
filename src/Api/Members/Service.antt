-- ===== src/Api/Members/Service.antt =====
-- The methods of api/src/members/members.service.ts, each of which is what it admits (queries and
-- guards, `admit_…`) followed by what it writes (`commit_…`) and its answer.
use staminads.Common.{ℕ, String, not, Option, none, some, List, [], ◌∷◌, ◌++◌, str_eq, filter}
use staminads.Common.Count.{count, find}
use staminads.Api.Permissions.{Role, owner, admin, is_owner}
use staminads.Api.Members.{
  WorkspaceMembership, User, MemberWithUser, MembershipTable, Answer, ok, not_found, bad_request,
  forbidden, AuditEntry, World, is_of, is_owner_of, or_missing, guard, and_then, member_with_user,
  with_user, check_update_role, check_remove, check_leave, with_role, commit, role_name, entry,
  sort_by_created,
}

module _ (db : MembershipTable) where
  unfoldable pub get_membership : String → String → db.Table → Option WorkspaceMembership
  get_membership workspace user t = find (is_of workspace user) (db.rows t)

  unfoldable pub count_owners : String → db.Table → ℕ
  count_owners workspace t = count (is_owner_of workspace) (db.rows t)

  abbrev pub log : AuditEntry → World db → World db
  log e w = record w { audit = w.audit ++ e ∷ [] }

  abbrev pub insert_rows : List WorkspaceMembership → World db → World db
  insert_rows new w = record w { memberships = db.insert new w.memberships }

  abbrev pub delete_row : WorkspaceMembership → World db → World db
  delete_row m w = record w { memberships = db.delete_id m.id w.memberships }

  abbrev pub revoke_all_sessions : String → World db → World db
  revoke_all_sessions user w = record w { revoked = w.revoked ++ user ∷ [] }

  -- The target of updateRole, remove and leave, if the guards let them; the same table serves all
  -- the queries of a call.
  unfoldable pub admit_update_role :
      String → String → Role → WorkspaceMembership → db.Table → Answer WorkspaceMembership
  admit_update_role workspace user role actor t =
      and_then (or_missing (not_found "Member not found") (get_membership workspace user t))
        (check_update_role actor user role)

  unfoldable pub admit_remove :
      String → String → WorkspaceMembership → db.Table → Answer WorkspaceMembership
  admit_remove workspace user actor t =
      and_then (or_missing (not_found "Member not found") (get_membership workspace user t))
        (check_remove actor user (count_owners workspace t))

  unfoldable pub admit_leave : String → String → db.Table → Answer WorkspaceMembership
  admit_leave workspace user t =
      and_then
        (or_missing (not_found "Not a member of this workspace") (get_membership workspace user t))
        (check_leave (count_owners workspace t))

  unfoldable pub commit_remove :
      String → String → WorkspaceMembership → WorkspaceMembership → World db → World db
  commit_remove workspace user actor target w =
      log
        (entry actor.user_id workspace "member.removed" "membership" target.id
          (("user_id", user) ∷ ("role", role_name target.role) ∷ ("sessions_revoked", "true") ∷ []))
        (revoke_all_sessions user (delete_row target w))

  unfoldable pub commit_leave : String → String → WorkspaceMembership → World db → World db
  commit_leave workspace user m w =
      log (entry user workspace "member.left" "membership" m.id (("role", role_name m.role) ∷ []))
        (delete_row m w)

  unfoldable pub remove : String → String → WorkspaceMembership → World db → World db × Answer Unit
  remove workspace user actor w =
      commit (commit_remove workspace user actor) (λ _. ok tt)
        (admit_remove workspace user actor w.memberships) w

  unfoldable pub leave : String → String → World db → World db × Answer Unit
  leave workspace user w =
      commit (commit_leave workspace user) (λ _. ok tt) (admit_leave workspace user w.memberships) w

  -- The memberships of the actor and of the new owner.
  unfoldable pub admit_transfer :
      String → String → String → db.Table → Answer (WorkspaceMembership × WorkspaceMembership)
  admit_transfer workspace new_owner actor t =
      and_then
        (or_missing (forbidden "Not a member of this workspace") (get_membership workspace actor t))
        (λ m. guard (not (is_owner m.role)) (forbidden "Only owners can transfer ownership") (
          guard (str_eq actor new_owner) (bad_request "Cannot transfer ownership to yourself") (
            and_then
              (or_missing (not_found "New owner is not a member of this workspace")
                (get_membership workspace new_owner t))
              (λ n. ok (m, n)))))

  unfoldable pub commit_transfer :
      String → String → String → ℕ → WorkspaceMembership × WorkspaceMembership → World db → World db
  commit_transfer workspace new_owner actor now (m, n) w =
      log
        (entry actor workspace "ownership.transferred" "workspace" workspace
          (("old_owner_id", actor) ∷ ("new_owner_id", new_owner) ∷ []))
        (insert_rows (with_role admin now m ∷ with_role owner now n ∷ []) w)

  unfoldable pub commit_update_role :
      String → String → Role → WorkspaceMembership → ℕ → WorkspaceMembership → World db → World db
  commit_update_role workspace user role actor now target w =
      log
        (entry actor.user_id workspace "member.role_updated" "membership" target.id (
          ("user_id", user)
          ∷ ("old_role", role_name target.role)
          ∷ ("new_role", role_name role)
          ∷ []))
        (insert_rows (with_role role now target ∷ []) w)

  module _ (find_by_id : String → Option User) where
    unfoldable pub get_member : String → String → db.Table → Answer MemberWithUser
    get_member workspace user t =
        and_then (or_missing (not_found "Member not found") (get_membership workspace user t))
          (with_user find_by_id user)

    unfoldable pub update_role :
        String
        → String
        → Role
        → WorkspaceMembership
        → ℕ
        → World db
        → World db × Answer MemberWithUser
    update_role workspace user role actor now w =
        commit (commit_update_role workspace user role actor now)
          (λ target. with_user find_by_id user (with_role role now target))
          (admit_update_role workspace user role actor w.memberships) w

    unfoldable pub transfer_ownership :
        String
        → String
        → String
        → ℕ
        → World db
        → World db × Answer (MemberWithUser × MemberWithUser)
    transfer_ownership workspace new_owner actor now w =
        commit (commit_transfer workspace new_owner actor now)
          (λ pair. and_then (with_user find_by_id actor (with_role admin now pair.0)) (λ old.
            and_then (with_user find_by_id new_owner (with_role owner now pair.1))
              (λ new. ok (old, new))))
          (admit_transfer workspace new_owner actor w.memberships) w

    -- The loop of list, and its `ORDER BY created_at ASC`.
    abbrev pub add_user :
        WorkspaceMembership → Option User → List MemberWithUser → List MemberWithUser
    add_user m none rest = rest
    add_user m (some u) rest = member_with_user m u ∷ rest

    unfoldable pub with_users : List WorkspaceMembership → List MemberWithUser
    with_users [] = []
    with_users (m ∷ rest) = add_user m (find_by_id m.user_id) (with_users rest)

    unfoldable pub list : String → db.Table → List MemberWithUser
    list workspace t =
        with_users (sort_by_created (filter (λ m. str_eq m.workspace_id workspace) (db.rows t)))
