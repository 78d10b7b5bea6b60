-- ===== src/Api/Members/Guards.antt =====
-- What is known when the guards of api/src/members/members.service.ts let a call through.
use staminads.Common.{
  ℕ, ◌≤◌, String, Bool, true, false, not, Option, none, some, str_eq, ◌≡◌, refl, sym, ◌∙◌, ap,
  arith,
}
use staminads.Api.Permissions.{Role, is_owner, can_modify_member}
use staminads.Api.Members.{
  WorkspaceMembership, MembershipTable, Answer, Refusal, not_found, forbidden, bad_request, guard,
  and_then, or_missing, ok, refused, check_update_role, check_remove, check_leave,
}
use staminads.Api.Members.Service.{
  get_membership, count_owners, admit_update_role, admit_remove, admit_leave, admit_transfer,
}

-- What the guards let through.
pub check_update_role-ok :
    (actor : WorkspaceMembership) (user : String) (role : Role) (target m : WorkspaceMembership)
    → check_update_role actor user role target ≡ ok m
    → (target ≡ m) × (is_owner target.role ≡ false)
unfolding check_update_role can_modify_member
check_update_role-ok actor user role target m h = ground arith

pub check_remove-ok :
    (actor : WorkspaceMembership) (user : String) (owners : ℕ) (target m : WorkspaceMembership)
    → check_remove actor user owners target ≡ ok m
    → (target ≡ m) × ((is_owner target.role ≡ true) → 2 ≤ owners)
unfolding check_remove
check_remove-ok actor user owners target m h = ground arith

check_leave-ok :
    (owners : ℕ) (target m : WorkspaceMembership)
    → check_leave owners target ≡ ok m
    → (target ≡ m) × ((is_owner target.role ≡ true) → 2 ≤ owners)
unfolding check_leave
check_leave-ok owners target m h = ground arith

-- A row was found, and the guards passed it.
pub found_and_ok :
    {A B : Type 0} (e : Refusal) (o : Option A) (next : A → Answer B) (b : B)
    → and_then (or_missing e o) next ≡ ok b
    → (a : A) × (o ≡ some a) × (next a ≡ ok b)
found_and_ok e none next b h = absurd (ground arith)
found_and_ok e (some a) next b h = (a, refl, h)

pub guard_passed :
    {A : Type 0} (b : Bool) (e : Refusal) (rest : Answer A) (a : A)
    → guard b e rest ≡ ok a
    → (b ≡ false) × (rest ≡ ok a)
guard_passed true e rest a h = absurd (ground arith)
guard_passed false e rest a h = (refl, h)

-- The answer, or another where it was refused.
abbrev pub answer_or : {A : Type 0} → A → Answer A → A
answer_or a (ok b) = b
answer_or a (refused e) = a

module _ (db : MembershipTable) where
  pub admit_update_role-ok :
      (workspace user : String) (role : Role) (actor : WorkspaceMembership) (t : db.Table)
      (m : WorkspaceMembership)
      → admit_update_role db workspace user role actor t ≡ ok m
      → (get_membership db workspace user t ≡ some m) × (is_owner m.role ≡ false)
  unfolding admit_update_role
  admit_update_role-ok workspace user role actor t m h =
      let (a, e, k) =
        found_and_ok (not_found "Member not found") (get_membership db workspace user t)
          (check_update_role actor user role) m h in
      let (same, other) = check_update_role-ok actor user role a m k in
      (e ∙ ap some same, ap (λ x. is_owner x.role) (sym same) ∙ other)

  pub admit_remove-ok :
      (workspace user : String) (actor : WorkspaceMembership) (t : db.Table)
      (m : WorkspaceMembership)
      → admit_remove db workspace user actor t ≡ ok m
      → (get_membership db workspace user t ≡ some m)
        × ((is_owner m.role ≡ true) → 2 ≤ count_owners db workspace t)
  unfolding admit_remove
  admit_remove-ok workspace user actor t m h =
      let (a, e, k) =
        found_and_ok (not_found "Member not found") (get_membership db workspace user t)
          (check_remove actor user (count_owners db workspace t)) m h in
      let (same, more) = check_remove-ok actor user (count_owners db workspace t) a m k in
      (e ∙ ap some same, λ own. more (ap (λ x. is_owner x.role) same ∙ own))

  pub admit_leave-ok :
      (workspace user : String) (t : db.Table) (m : WorkspaceMembership)
      → admit_leave db workspace user t ≡ ok m
      → (get_membership db workspace user t ≡ some m)
        × ((is_owner m.role ≡ true) → 2 ≤ count_owners db workspace t)
  unfolding admit_leave
  admit_leave-ok workspace user t m h =
      let (a, e, k) =
        found_and_ok (not_found "Not a member of this workspace")
          (get_membership db workspace user t) (check_leave (count_owners db workspace t)) m h in
      let (same, more) = check_leave-ok (count_owners db workspace t) a m k in
      (e ∙ ap some same, λ own. more (ap (λ x. is_owner x.role) same ∙ own))

  pub admit_transfer-ok :
      (workspace new_owner actor : String) (t : db.Table) (m n : WorkspaceMembership)
      → admit_transfer db workspace new_owner actor t ≡ ok (m, n)
      → (get_membership db workspace actor t ≡ some m)
        × (get_membership db workspace new_owner t ≡ some n)
        × (str_eq actor new_owner ≡ false)
  unfolding admit_transfer
  admit_transfer-ok workspace new_owner actor t m n h =
      let (a, e, k) =
        found_and_ok (forbidden "Not a member of this workspace")
          (get_membership db workspace actor t)
          (λ a. guard (not (is_owner a.role)) (forbidden "Only owners can transfer ownership") (
            guard (str_eq actor new_owner) (bad_request "Cannot transfer ownership to yourself") (
              and_then
                (or_missing (not_found "New owner is not a member of this workspace")
                  (get_membership db workspace new_owner t))
                (λ b. ok (a, b)))))
          (m, n) h in
      let (_, k') = guard_passed (not (is_owner a.role)) _ _ (m, n) k in
      let (different, k'') = guard_passed (str_eq actor new_owner) _ _ (m, n) k' in
      let (b, f, same) =
        found_and_ok _ (get_membership db workspace new_owner t) (λ b. ok (a, b)) (m, n) k'' in
      (e ∙ ap some (ground arith), f ∙ ap some (ground arith), different)
