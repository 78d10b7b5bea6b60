-- ===== src/Api/Members/Roles.antt =====
-- Roles under calls by actors who are no owners (api/src/members/members.service.ts).
use staminads.Common.{
  ◌≤◌, ◌<◌, ℕ, String, false, ◌&&◌, ◌≡◌, refl, sym, ◌∙◌, ap, arith, Bool, Option,
}
use mathlib.Core.Option.{some-injective}
use staminads.Common.Count.{count}
use staminads.Api.Permissions.{Role, is_owner, same_role, role_hierarchy, can_modify_member}
use staminads.Api.Members.{
  WorkspaceMembership, MembershipTable, User, World, Answer, ok, refused, not_found, is_of,
  check_update_role, check_remove, commit,
}
use staminads.Api.Members.Service.{
  get_membership, count_owners, admit_update_role, admit_remove, commit_update_role, commit_remove,
  update_role, remove,
}
use staminads.Api.Members.Guards.{found_and_ok, admit_update_role-ok, admit_remove-ok}
use staminads.Api.Members.Laws.{IsReplacing, IsKeyed, IsCurrent, count-update, count-delete_other}

check_update_role-below :
    (actor : WorkspaceMembership) (user : String) (role : Role) (target m : WorkspaceMembership)
    → is_owner actor.role ≡ false
    → check_update_role actor user role target ≡ ok m
    → (role_hierarchy target.role < role_hierarchy actor.role)
      × (role_hierarchy role < role_hierarchy actor.role)
unfolding check_update_role can_modify_member
check_update_role-below actor user role target m low h = ground arith

check_remove-below :
    (actor : WorkspaceMembership) (user : String) (owners : ℕ) (target m : WorkspaceMembership)
    → is_owner actor.role ≡ false
    → check_remove actor user owners target ≡ ok m
    → role_hierarchy target.role < role_hierarchy actor.role
unfolding check_remove can_modify_member
check_remove-below actor user owners target m low h = ground arith

same_role-lower : (r s : Role) → role_hierarchy r < role_hierarchy s → same_role r s ≡ false
same_role-lower r s h = ground arith

-- The row of a user, if it has the role.
abbrev pub holds : String → String → Role → WorkspaceMembership → Bool
holds workspace user role m = is_of workspace user m && same_role m.role role

-- A write that keeps a number is a method that keeps it.
module _ {W A B : Type 0} (n : W → ℕ) (write : A → W → W) (reply : A → Answer B) where
  count-commit :
      (a : Answer A) (w : W)
      → ((x : A) → a ≡ ok x → n (write x w) ≡ n w)
      → n (commit write reply a w).0 ≡ n w
  count-commit (ok x) w h = h x refl
  count-commit (refused e) w h = refl

-- How many rows say that a user has a role in a workspace.
abbrev pub holders : (db : MembershipTable) → String → String → Role → World db → ℕ
holders db workspace user role w = count (holds workspace user role) (db.rows w.memberships)

module _ (db : MembershipTable) (laws : IsReplacing db) (find_by_id : String → Option User)
    (actor : WorkspaceMembership) (low : is_owner actor.role ≡ false) where
  -- An actor who is no owner changes with updateRole and remove nothing for the roles of its own
  -- rank and above: whoever has such a role keeps it, and nobody gets one. The rows are keyed, the
  -- table behaves as documented and no row is ahead of the time of the call. A deletion may be done
  -- or still be pending.
  pub holders-update_role-remove :
      (workspace user : String) (role : Role) (now : ℕ) (w : World db) (place someone : String)
      (high : Role)
      → IsKeyed db w.memberships
      → IsCurrent db now w.memberships
      → role_hierarchy actor.role ≤ role_hierarchy high
      → (holders db place someone high (update_role db find_by_id workspace user role actor now w).0
          ≡ holders db place someone high w)
        × (holders db place someone high (remove db workspace user actor w).0
            ≡ holders db place someone high w)
  unfolding update_role remove commit_update_role commit_remove admit_update_role admit_remove
  holders-update_role-remove workspace user role now w place someone high keyed current above =
      let t = w.memberships in
      let p = holds place someone high in
      (
        count-commit (holders db place someone high) _ _
            (admit_update_role db workspace user role actor t) w
            (λ m passed.
              let (a, e, k) =
                found_and_ok (not_found "Member not found") (get_membership db workspace user t) _ m
                  passed in
              let (found, _) = admit_update_role-ok db workspace user role actor t m passed in
              let below = check_update_role-below actor user role a m low k in
              let same = sym (some-injective _ _ (sym found ∙ e)) in
              let changed =
                count-update db laws p workspace user t m role now keyed current found in
              let old =
                ap (λ (x : WorkspaceMembership). same_role x.role high) (sym same)
                ∙ same_role-lower a.role high (omega arith) in
              let new = same_role-lower role high (omega arith) in ground arith),
        count-commit (holders db place someone high) _ _ (admit_remove db workspace user actor t) w
            (λ m passed.
              let (a, e, k) =
                found_and_ok (not_found "Member not found") (get_membership db workspace user t) _ m
                  passed in
              let (found, _) = admit_remove-ok db workspace user actor t m passed in
              let below = check_remove-below actor user (count_owners db workspace t) a m low k in
              let same = sym (some-injective _ _ (sym found ∙ e)) in
              let old =
                ap (λ (x : WorkspaceMembership). same_role x.role high) (sym same)
                ∙ same_role-lower a.role high (omega arith) in
              count-delete_other db laws p workspace user t m keyed found (ground arith)),
      )
