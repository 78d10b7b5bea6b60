-- ===== src/Api/Members/Race.antt =====
-- Two calls of leave (api/src/members/members.service.ts) whose queries and writes interleave.
use staminads.Common.{String, true, false, not, ◌&&◌, some, str_eq, ◌≡◌, refl, arith, eq_iff}
use staminads.Common.Count.{count, count-split, count-found}
use staminads.Api.Permissions.{is_owner}
use staminads.Api.Members.{
  WorkspaceMembership, MembershipTable, World, ok, is_of, is_owner_of, check_leave,
}
use staminads.Api.Members.Service.{get_membership, count_owners, admit_leave, commit_leave}
use staminads.Api.Members.Laws.{IsReplacing, IsKeyed, count-id, get_membership-key}

module _ (db : MembershipTable) (laws : IsReplacing db) where
  -- The rows of different users have different ids.
  id-different :
      (workspace a b : String) (t : db.Table) (m n : WorkspaceMembership)
      → IsKeyed db t
      → get_membership db workspace a t ≡ some m
      → get_membership db workspace b t ≡ some n
      → str_eq a b ≡ false
      → str_eq m.id n.id ≡ false
  unfolding get_membership
  id-different workspace a b t m n keyed e f different =
      let key = get_membership-key db laws workspace a t m e in
      let key' = get_membership-key db laws workspace b t n f in
      let rows = db.rows t in
      let both = λ (x : WorkspaceMembership). is_of workspace a x && str_eq x.id n.id in
      let one = count-id db laws (is_of workspace a) workspace b t n keyed f in
      let found = count-found both (is_of workspace a) rows m e in
      ground
        (arith, eq_iff a b, eq_iff m.user_id a, eq_iff n.user_id a, eq_iff m.workspace_id workspace)

  -- In a workspace with two owners, whose rows are keyed, in a table that deletes as documented
  -- and has no deletion pending: if both owners leave at once, so that each passes its guards before
  -- either row is deleted, both are let through, and when both deletions are done the workspace has
  -- no owner.
  pub admit_leave-race :
      (workspace a b : String) (w : World db) (m n : WorkspaceMembership)
      → db.settle w.memberships ≡ w.memberships
      → IsKeyed db w.memberships
      → get_membership db workspace a w.memberships ≡ some m
      → get_membership db workspace b w.memberships ≡ some n
      → is_owner m.role ≡ true
      → is_owner n.role ≡ true
      → str_eq a b ≡ false
      → count_owners db workspace w.memberships ≡ 2
      → (admit_leave db workspace a w.memberships ≡ ok m)
        × (admit_leave db workspace b w.memberships ≡ ok n)
        × (count_owners db workspace (
              db.settle
                (commit_leave db workspace b n (commit_leave db workspace a m w)).memberships)
            ≡ 0)
  unfolding admit_leave check_leave commit_leave count_owners
  admit_leave-race workspace a b w m n settled keyed e f own own' different two =
      let t = w.memberships in
      (
        rw e (rw own (rw two refl)),
        rw f (rw own' (rw two refl)),
        let p = is_owner_of workspace in
            let first = laws.count-delete p n.id (db.delete_id m.id t) in
            let second : count (λ x. p x && not (str_eq x.id n.id))
                  (db.rows (db.settle (db.delete_id m.id t)))
                ≡ count (λ x. (p x && not (str_eq x.id n.id)) && not (str_eq x.id m.id))
                    (db.rows t) =
              rw settled at (laws.count-delete (λ x. p x && not (str_eq x.id n.id)) m.id t) in
            let split = count-split p (λ x. str_eq x.id n.id) (db.rows t) in
            let split' =
              count-split (λ x. p x && not (str_eq x.id n.id)) (λ x. str_eq x.id m.id)
                (db.rows t) in
            let one = count-id db laws p workspace b t n keyed f in
            let other =
              count-id db laws (λ x. p x && not (str_eq x.id n.id)) workspace a t m keyed e in
            let ids = id-different workspace a b t m n keyed e f different in
            let key = get_membership-key db laws workspace a t m e in
            let key' = get_membership-key db laws workspace b t n f in
            ground (arith, eq_iff m.workspace_id workspace, eq_iff n.workspace_id workspace),
      )
