-- ===== src/Api/Members/Laws.antt =====
-- What the service of api/src/members/members.service.ts relies on in its table, a
-- ReplacingMergeTree of ClickHouse ordered by workspace and user (api/src/database/schemas.ts), and
-- what follows for the number of rows that pass a test.
use staminads.Common.{
  ℕ, ◌+◌, ◌≤◌, String, Bool, false, not, ◌&&◌, ◌||◌, some, List, [], ◌∷◌, ltb, str_eq, ◌≡◌, refl,
  arith, All, eq_iff,
}
use staminads.Common.Count.{tally, count, count-split, count-only, count-ext, find-holds}
use mathlib.Core.Path.{subst}
use text.Mathlib.TextPositions.{eq_refl}
use staminads.Api.Permissions.{Role}
use staminads.Api.Members.{WorkspaceMembership, MembershipTable, is_of, with_role}
use staminads.Api.Members.Service.{get_membership}

-- The key of a row is that of one of the new rows.
abbrev pub is_replaced : List WorkspaceMembership → WorkspaceMembership → Bool
is_replaced [] m = false
is_replaced (n ∷ new) m = is_of n.workspace_id n.user_id m || is_replaced new m

abbrev pub HasDistinctKeys : List WorkspaceMembership → Type 0
HasDistinctKeys [] = Unit
HasDistinctKeys (n ∷ new) = (is_replaced new n ≡ false) × HasDistinctKeys new

-- No row is of a later time.
unfoldable pub IsCurrent : (db : MembershipTable) → ℕ → db.Table → Type 0
IsCurrent db now t = count (λ m. ltb now m.updated_at) (db.rows t) ≡ 0

-- The documented behaviour. A row that is inserted takes the place of an older one of its key. A
-- DELETE removes the rows that its condition names, and no others, once its mutation is done;
-- before that a query may or may not see them. Done mutations stay done, and an insert adds none.
pub record IsReplacing (db : MembershipTable) : Type 0 where
  pub count-insert :
      (p : WorkspaceMembership → Bool) (new : List WorkspaceMembership) (now : ℕ) (t : db.Table)
      → All (λ m. m.updated_at ≡ now) new
      → HasDistinctKeys new
      → IsCurrent db now t
      → count p (db.rows (db.insert new t))
        ≡ count (λ m. p m && not (is_replaced new m)) (db.rows t) + count p new
  pub count-delete :
      (p : WorkspaceMembership → Bool) (id : String) (t : db.Table)
      → count p (db.rows (db.settle (db.delete_id id t)))
        ≡ count (λ m. p m && not (str_eq m.id id)) (db.rows (db.settle t))
  pub count-pending :
      (p : WorkspaceMembership → Bool) (id : String) (t : db.Table)
      → (count p (db.rows (db.delete_id id t)) ≤ count p (db.rows t))
        × (count (λ m. p m && not (str_eq m.id id)) (db.rows t)
            ≤ count p (db.rows (db.delete_id id t)))
  pub settle-settle : (t : db.Table) → db.settle (db.settle t) ≡ db.settle t
  pub settle-insert :
      (new : List WorkspaceMembership) (t : db.Table)
      → db.settle t ≡ t
      → db.settle (db.insert new t) ≡ db.insert new t

-- Rows have different keys and different ids.
pub record IsKeyed (db : MembershipTable) (t : db.Table) : Type 0 where
  pub one_row : (workspace user : String) → count (is_of workspace user) (db.rows t) ≤ 1
  pub one_id : (id : String) → count (λ m. str_eq m.id id) (db.rows t) ≤ 1

module _ (db : MembershipTable) (laws : IsReplacing db) where
  -- A row that was found is of the workspace and of the user.
  pub get_membership-key :
      (workspace user : String) (t : db.Table) (m : WorkspaceMembership)
      → get_membership db workspace user t ≡ some m
      → (m.workspace_id ≡ workspace) × (m.user_id ≡ user)
  unfolding get_membership
  get_membership-key workspace user t m e =
      let holds = find-holds (is_of workspace user) (db.rows t) m e in
      ground (arith, holds, eq_iff m.workspace_id workspace, eq_iff m.user_id user)

  -- Its id is that of no other row.
  pub count-id :
      (p : WorkspaceMembership → Bool) (workspace user : String) (t : db.Table)
      (m : WorkspaceMembership)
      → IsKeyed db t
      → get_membership db workspace user t ≡ some m
      → count (λ x. p x && str_eq x.id m.id) (db.rows t) ≡ tally (p m)
  unfolding get_membership
  count-id p workspace user t m keyed e =
      count-only p (is_of workspace user) (λ x. str_eq x.id m.id) (db.rows t) m e (eq_refl m.id)
        (keyed.one_id m.id)

  -- The rows once the deletion of one is done, in a table in which nothing else is left to do.
  pub count-delete_row :
      (p : WorkspaceMembership → Bool) (workspace user : String) (t : db.Table)
      (m : WorkspaceMembership)
      → db.settle t ≡ t
      → IsKeyed db t
      → get_membership db workspace user t ≡ some m
      → count p (db.rows (db.settle (db.delete_id m.id t))) + tally (p m) ≡ count p (db.rows t)
  count-delete_row p workspace user t m settled keyed e =
      let split = count-split p (λ x. str_eq x.id m.id) (db.rows t) in
      let one = count-id p workspace user t m keyed e in
      let rest : count p (db.rows (db.settle (db.delete_id m.id t)))
          ≡ count (λ x. p x && not (str_eq x.id m.id)) (db.rows t) =
        rw settled at (laws.count-delete p m.id t) in
      omega arith

  -- Before and after it is done, if the row does not pass the test.
  pub count-delete_other :
      (p : WorkspaceMembership → Bool) (workspace user : String) (t : db.Table)
      (m : WorkspaceMembership)
      → IsKeyed db t
      → get_membership db workspace user t ≡ some m
      → p m ≡ false
      → count p (db.rows (db.delete_id m.id t)) ≡ count p (db.rows t)
  count-delete_other p workspace user t m keyed e fails =
      let split = count-split p (λ x. str_eq x.id m.id) (db.rows t) in
      let one = count-id p workspace user t m keyed e in
      let bounds = laws.count-pending p m.id t in
      let none_of_it : tally (p m) ≡ 0 = rw fails refl in omega arith

  -- The rows of the key of a row that was found are that row.
  count-replaced :
      (p : WorkspaceMembership → Bool) (workspace user : String) (t : db.Table)
      (m : WorkspaceMembership) (role : Role) (now : ℕ)
      → IsKeyed db t
      → get_membership db workspace user t ≡ some m
      → count (λ x. p x && is_replaced (with_role role now m ∷ []) x) (db.rows t) ≡ tally (p m)
  unfolding get_membership
  count-replaced p workspace user t m role now keyed e =
      count-only p (is_of workspace user) (is_replaced (with_role role now m ∷ [])) (db.rows t) m e
        (rw (eq_refl m.workspace_id) (rw (eq_refl m.user_id) refl))
        (subst (λ n. n ≤ 1)
          (count-ext (is_of m.workspace_id m.user_id) (is_replaced (with_role role now m ∷ []))
            (λ x. ground arith) (db.rows t))
          (keyed.one_row m.workspace_id m.user_id))

  -- A new version of a row takes its place.
  pub count-update :
      (p : WorkspaceMembership → Bool) (workspace user : String) (t : db.Table)
      (m : WorkspaceMembership) (role : Role) (now : ℕ)
      → IsKeyed db t
      → IsCurrent db now t
      → get_membership db workspace user t ≡ some m
      → count p (db.rows (db.insert (with_role role now m ∷ []) t)) + tally (p m)
        ≡ count p (db.rows t) + tally (p (with_role role now m))
  count-update p workspace user t m role now keyed current e =
      let new = with_role role now m ∷ [] in
      let inserted = laws.count-insert p new now t (refl, tt) (refl, tt) current in
      let split = count-split p (is_replaced new) (db.rows t) in
      let one = count-replaced p workspace user t m role now keyed e in omega arith

  is_replaced-other :
      (workspace user other : String) (t : db.Table) (m n : WorkspaceMembership) (role : Role)
      (now : ℕ)
      → get_membership db workspace user t ≡ some m
      → get_membership db workspace other t ≡ some n
      → str_eq user other ≡ false
      → is_replaced (with_role role now m ∷ []) n ≡ false
  is_replaced-other workspace user other t m n role now e f different =
      let key = get_membership-key workspace user t m e in
      let key' = get_membership-key workspace other t n f in
      ground (arith, eq_iff n.user_id m.user_id, eq_iff user other)

  pub is_replaced-new :
      (workspace user other : String) (t : db.Table) (m n : WorkspaceMembership) (role role' : Role)
      (now : ℕ)
      → get_membership db workspace user t ≡ some m
      → get_membership db workspace other t ≡ some n
      → str_eq user other ≡ false
      → is_replaced (with_role role' now n ∷ []) (with_role role now m) ≡ false
  is_replaced-new workspace user other t m n role role' now e f different =
      let key = get_membership-key workspace user t m e in
      let key' = get_membership-key workspace other t n f in
      ground (arith, eq_iff m.user_id n.user_id, eq_iff user other)

  -- The same for new versions of two rows.
  pub count-update_two :
      (p : WorkspaceMembership → Bool) (workspace user other : String) (t : db.Table)
      (m n : WorkspaceMembership) (role role' : Role) (now : ℕ)
      → IsKeyed db t
      → IsCurrent db now t
      → get_membership db workspace user t ≡ some m
      → get_membership db workspace other t ≡ some n
      → str_eq user other ≡ false
      → count p (db.rows (db.insert (with_role role now m ∷ with_role role' now n ∷ []) t))
          + (tally (p m) + tally (p n))
        ≡ count p (db.rows t)
          + (tally (p (with_role role now m)) + tally (p (with_role role' now n)))
  count-update_two p workspace user other t m n role role' now keyed current e f different =
      let first = with_role role now m ∷ [] in
      let second = with_role role' now n ∷ [] in
      let new = with_role role now m ∷ second in
      let apart = is_replaced-other workspace user other t m n role now e f different in
      let apart' = is_replaced-new workspace user other t m n role role' now e f different in
      let inserted =
        laws.count-insert p new now t (refl, (refl, tt)) (apart', (refl, tt)) current in
      let split = count-split p (is_replaced first) (db.rows t) in
      let split' =
        count-split (λ x. p x && not (is_replaced first x)) (is_replaced second) (db.rows t) in
      let one = count-replaced p workspace user t m role now keyed e in
      let two =
        count-replaced (λ x. p x && not (is_replaced first x)) workspace other t n role' now keyed
          f in
      let same =
        count-ext (λ x. (p x && not (is_replaced first x)) && not (is_replaced second x))
          (λ x. p x && not (is_replaced new x)) (λ x. ground arith) (db.rows t) in
      ground arith
