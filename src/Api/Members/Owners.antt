-- ===== src/Api/Members/Owners.antt =====
-- The owners of workspaces under the calls of api/src/members/members.service.ts.
use mathlib.Core.Path.{subst}
use staminads.Common.{
  ℕ, ◌≤◌, String, true, false, Option, some, [], ◌∷◌, str_eq, ◌≡◌, refl, sym, ◌∙◌, arith, eq_iff,
  String-cases, inl, inr,
}
use staminads.Api.Permissions.{Role, owner, admin, is_owner}
use staminads.Api.Members.{
  WorkspaceMembership, MembershipTable, User, World, Answer, ok, refused, is_of, is_owner_of,
  with_role, commit,
}
use staminads.Api.Members.Service.{
  get_membership, count_owners, admit_update_role, admit_remove, admit_leave, admit_transfer,
  commit_update_role, commit_remove, commit_leave, commit_transfer, update_role, remove, leave,
  transfer_ownership,
}
use staminads.Api.Members.Guards.{
  admit_update_role-ok, admit_remove-ok, admit_leave-ok, admit_transfer-ok,
}
use staminads.Api.Members.Laws.{
  IsReplacing, IsKeyed, IsCurrent, count-update, count-update_two, count-delete_row,
  get_membership-key, is_replaced-new,
}

-- A write that keeps a property is a method that keeps it.
commit_keeps :
    {W A B : Type 0} (P : W → Type 0) (write : A → W → W) (reply : A → Answer B) (a : Answer A)
    (w : W)
    → P w
    → ((x : A) → a ≡ ok x → P (write x w))
    → P (commit write reply a w).0
commit_keeps P write reply (ok x) w h k = k x refl
commit_keeps P write reply (refused e) w h k = h

-- The rows are keyed, and the workspace has an owner.
abbrev pub HasOwner : (db : MembershipTable) → String → db.Table → Type 0
HasOwner db workspace t = IsKeyed db t × (1 ≤ count_owners db workspace t)

module _ (db : MembershipTable) (laws : IsReplacing db) (subject : String) where
  delete_id-HasOwner :
      (workspace user : String) (t : db.Table) (m : WorkspaceMembership)
      → db.settle t ≡ t
      → get_membership db workspace user t ≡ some m
      → ((is_owner m.role ≡ true) → 2 ≤ count_owners db workspace t)
      → HasOwner db subject t
      → HasOwner db subject (db.settle (db.delete_id m.id t))
  unfolding count_owners
  delete_id-HasOwner workspace user t m settled e more (keyed, some_owner) =
      let less = count-delete_row db laws in
      let key = get_membership-key db laws workspace user t m e in
      (
        record {
          one_row = λ w u.
              omega (arith, less (is_of w u) workspace user t m settled keyed e, keyed.one_row w u);
          one_id = λ id. omega (
            arith,
            less (λ x. str_eq x.id id) workspace user t m settled keyed e,
            keyed.one_id id,
          );
        },
        let owners = less (is_owner_of subject) workspace user t m settled keyed e in
            elim (String-cases m.workspace_id subject) [
              | inl here ↦
                  let many =
                    subst (λ w. is_owner m.role ≡ true → 2 ≤ count_owners db w t) (sym key.0 ∙ here)
                      more in
                  ground arith
              | inr other ↦ ground arith
            ],
      )

  insert-HasOwner :
      (workspace user : String) (t : db.Table) (m : WorkspaceMembership) (role : Role) (now : ℕ)
      → get_membership db workspace user t ≡ some m
      → is_owner m.role ≡ false
      → IsCurrent db now t
      → HasOwner db subject t
      → HasOwner db subject (db.insert (with_role role now m ∷ []) t)
  unfolding count_owners
  insert-HasOwner workspace user t m role now e low current (keyed, some_owner) =
      let same = count-update db laws in
      (
        record {
          one_row = λ w u. omega (
            arith,
            same (is_of w u) workspace user t m role now keyed current e,
            keyed.one_row w u,
          );
          one_id = λ id. omega (
            arith,
            same (λ x. str_eq x.id id) workspace user t m role now keyed current e,
            keyed.one_id id,
          );
        },
        let owners = same (is_owner_of subject) workspace user t m role now keyed current e in
            ground arith,
      )

  insert_two-HasOwner :
      (workspace user other : String) (t : db.Table) (m n : WorkspaceMembership) (now : ℕ)
      → get_membership db workspace user t ≡ some m
      → get_membership db workspace other t ≡ some n
      → str_eq user other ≡ false
      → IsCurrent db now t
      → HasOwner db subject t
      → HasOwner db subject (db.insert (with_role admin now m ∷ with_role owner now n ∷ []) t)
  unfolding count_owners
  insert_two-HasOwner workspace user other t m n now e f different current (keyed, some_owner) =
      let same = count-update_two db laws in
      let key = get_membership-key db laws workspace user t m e in
      let key' = get_membership-key db laws workspace other t n f in
      (
        record {
          one_row = λ w u. omega (
            arith,
            same (is_of w u) workspace user other t m n admin owner now keyed current e f different,
            keyed.one_row w u,
          );
          one_id = λ id. omega (
            arith,
            same (λ x. str_eq x.id id) workspace user other t m n admin owner now keyed current e f
                different,
            keyed.one_id id,
          );
        },
        let owners =
              same (is_owner_of subject) workspace user other t m n admin owner now keyed current e
                f different in
            let new =
              laws.count-insert (is_owner_of subject)
                (with_role admin now m ∷ with_role owner now n ∷ []) now t (refl, (refl, tt))
                (
                  is_replaced-new db laws workspace user other t m n admin owner now e f different,
                  (refl, tt),
                )
                current in
            ground (arith, eq_iff n.workspace_id m.workspace_id),
      )

-- A call of a method that writes, at a time that no row is ahead of. The actor of updateRole and of
-- remove is the membership that WorkspaceAuthGuard has attached to the request, any row here.
pub data Call (db : MembershipTable) (find_by_id : String → Option User) (w : World db)
    : World db → Type 0 where
  updating :
      (workspace user : String) (role : Role) (actor : WorkspaceMembership) (now : ℕ)
      → IsCurrent db now w.memberships
      → Call db find_by_id w (update_role db find_by_id workspace user role actor now w).0
  removing :
      (workspace user : String) (actor : WorkspaceMembership)
      → Call db find_by_id w (remove db workspace user actor w).0
  leaving : (workspace user : String) → Call db find_by_id w (leave db workspace user w).0
  transferring :
      (workspace new_owner actor : String) (now : ℕ)
      → IsCurrent db now w.memberships
      → Call db find_by_id w (transfer_ownership db find_by_id workspace new_owner actor now w).0

-- The tables when the mutations of memberships that were submitted are done.
abbrev pub settled : {db : MembershipTable} → World db → World db
settled {db = db} w = record w { memberships = db.settle w.memberships }

-- Calls one after the other, each with its mutation done before the next one comes.
pub data Calls (db : MembershipTable) (find_by_id : String → Option User)
    : World db → World db → Type 0 where
  done : {w : World db} → Calls db find_by_id w w
  next :
      {w w' w'' : World db}
      → Call db find_by_id w w'
      → Calls db find_by_id (settled w') w''
      → Calls db find_by_id w w''

module _ (db : MembershipTable) (laws : IsReplacing db) (find_by_id : String → Option User)
    (subject : String) where
  -- What holds once a call's mutation is done.
  abbrev pub KeepsOwner : World db → Type 0
  KeepsOwner w = HasOwner db subject (db.settle w.memberships)

  Call-HasOwner :
      {w w' : World db}
      → Call db find_by_id w w'
      → db.settle w.memberships ≡ w.memberships
      → HasOwner db subject w.memberships
      → HasOwner db subject (db.settle w'.memberships)
  unfolding update_role remove leave transfer_ownership commit_update_role commit_remove
      commit_leave commit_transfer
  Call-HasOwner {w} (updating workspace user role actor now current) settled h =
      commit_keeps KeepsOwner _ _ (admit_update_role db workspace user role actor w.memberships) w
        (rw settled h)
        (λ m passed.
          let (e, low) = admit_update_role-ok db workspace user role actor w.memberships m passed in
          rw (laws.settle-insert (with_role role now m ∷ []) w.memberships settled) (
            insert-HasOwner db laws subject workspace user w.memberships m role now e low current
              h))
  Call-HasOwner {w} (removing workspace user actor) settled h =
      commit_keeps KeepsOwner _ _ (admit_remove db workspace user actor w.memberships) w
        (rw settled h)
        (λ m passed.
          let (e, more) = admit_remove-ok db workspace user actor w.memberships m passed in
          delete_id-HasOwner db laws subject workspace user w.memberships m settled e more h)
  Call-HasOwner {w} (leaving workspace user) settled h =
      commit_keeps KeepsOwner _ _ (admit_leave db workspace user w.memberships) w (rw settled h)
        (λ m passed.
          let (e, more) = admit_leave-ok db workspace user w.memberships m passed in
          delete_id-HasOwner db laws subject workspace user w.memberships m settled e more h)
  Call-HasOwner {w} (transferring workspace new_owner actor now current) settled h =
      commit_keeps KeepsOwner _ _ (admit_transfer db workspace new_owner actor w.memberships) w
        (rw settled h)
        (λ pair passed.
          let (e, f, different) =
            admit_transfer-ok db workspace new_owner actor w.memberships pair.0 pair.1 passed in
          rw
            (laws.settle-insert (with_role admin now pair.0 ∷ with_role owner now pair.1 ∷ [])
              w.memberships settled)
            (insert_two-HasOwner db laws subject workspace actor new_owner w.memberships pair.0
              pair.1 now e f different current h))

  -- If the table behaves as documented, no deletion is pending and the rows have different keys and
  -- ids, a workspace that has an owner still has one after any sequence of calls of updateRole,
  -- remove, leave and transferOwnership, one after the other, by any actors, on any workspaces, each
  -- at a time that no row is ahead of and each after the DELETE mutation of the call before is done.
  -- (ClickHouse does mutations in the background, and the code does not wait for them: the last
  -- condition is one on the calls.)
  pub Calls-HasOwner :
      {w w' : World db}
      → Calls db find_by_id w w'
      → db.settle w.memberships ≡ w.memberships
      → HasOwner db subject w.memberships
      → HasOwner db subject w'.memberships
  Calls-HasOwner done settled h = h
  Calls-HasOwner (next {w' = u} call more) settled h =
      Calls-HasOwner more (laws.settle-settle u.memberships) (Call-HasOwner call settled h)
