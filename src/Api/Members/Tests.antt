-- ===== src/Api/Members/Tests.antt =====
-- A table of memberships kept as a list, with the ids that are still to be deleted, and the theorems on api/src/members/members.service.ts at
-- a workspace with it.
use staminads.Common.{
  String, false, not, none, some, List, [], ◌∷◌, ◌++◌, ◌≡◌, refl, arith, filter, str_eq, Option,
  ◌≤◌, ◌+◌,
}
use text.Mathlib.TextEquality.{eq_iff}
use staminads.Common.Count.{tally, count-append, count-filter, count-and_le, count-and_left_le}
use staminads.Api.Permissions.{Role, owner, admin, editor, viewer}
use staminads.Api.Members.{WorkspaceMembership, MembershipTable, User, World, ok}
use staminads.Api.Members.Service.{
  get_membership, count_owners, update_role, remove, leave, transfer_ownership, admit_leave,
  commit_leave,
}
use staminads.Api.Members.Laws.{is_replaced, IsReplacing, IsCurrent, IsKeyed}
use staminads.Api.Members.Owners.{settled, done, next, leaving, transferring, Calls-HasOwner}
use staminads.Api.Members.Race.{admit_leave-race}
use staminads.Api.Members.Roles.{holders, holders-update_role-remove}

abbrev erase : List String → List WorkspaceMembership → List WorkspaceMembership
erase [] rows = rows
erase (id ∷ ids) rows = filter (λ m. not (str_eq m.id id)) (erase ids rows)

abbrev list_table : MembershipTable
list_table = record {
  Table = List WorkspaceMembership × List String;
  rows = λ t. t.0;
  insert = λ new t. (filter (λ m. not (is_replaced new m)) t.0 ++ new, t.1);
  delete_id = λ id t. (t.0, id ∷ t.1);
  settle = λ t. (erase t.1 t.0, []);
}

settle-insert_list :
    (new rows : List WorkspaceMembership) (ids : List String)
    → list_table.settle (rows, ids) ≡ (rows, ids)
    → list_table.settle (list_table.insert new (rows, ids)) ≡ list_table.insert new (rows, ids)
settle-insert_list new rows [] e = refl
settle-insert_list new rows (id ∷ ids) e = absurd (ground arith)

list_table-IsReplacing : IsReplacing list_table
list_table-IsReplacing = record {
  count-insert = λ p new now t _ _ _. omega (
    arith,
    count-append p (filter (λ m. not (is_replaced new m)) t.0) new,
    count-filter p (λ m. not (is_replaced new m)) t.0,
  );
  count-delete = λ p id t. count-filter p (λ m. not (str_eq m.id id)) (erase t.1 t.0);
  count-pending = λ p id t. (omega arith, count-and_left_le p (λ m. not (str_eq m.id id)) t.0);
  settle-settle = λ t. refl;
  settle-insert = λ new t. settle-insert_list new t.0 t.1;
}

abbrev member : String → String → Role → WorkspaceMembership
member id user role = record {
  id = id;
  workspace_id = "shop";
  user_id = user;
  role = role;
  invited_by = none;
  joined_at = 1;
  created_at = 1;
  updated_at = 1;
}

abbrev ann : WorkspaceMembership
ann = member "m1" "ann" owner

abbrev bob : WorkspaceMembership
bob = member "m2" "bob" owner

abbrev eve : WorkspaceMembership
eve = member "m3" "eve" admin

abbrev joe : WorkspaceMembership
joe = member "m4" "joe" viewer

abbrev shop : World list_table
shop = record { memberships = (ann ∷ bob ∷ eve ∷ joe ∷ [], []); revoked = []; audit = [] }

abbrev find_user : String → Option User
find_user id = some (record { user_key = id; email = "x@y.z"; name = "X"; status = "active" })

at_most_one :
    (a b c d u : String)
    → str_eq a b ≡ false
    → str_eq a c ≡ false
    → str_eq a d ≡ false
    → str_eq b c ≡ false
    → str_eq b d ≡ false
    → str_eq c d ≡ false
    → tally (str_eq a u) + (tally (str_eq b u) + (tally (str_eq c u) + (tally (str_eq d u) + 0)))
      ≤ 1
at_most_one a b c d u ab ac ad bc bd cd = ground (
  arith,
  eq_iff a u,
  eq_iff b u,
  eq_iff c u,
  eq_iff d u,
  eq_iff a b,
  eq_iff a c,
  eq_iff a d,
  eq_iff b c,
  eq_iff b d,
  eq_iff c d,
)

shop-IsKeyed : IsKeyed list_table shop.memberships
shop-IsKeyed = record {
  one_row = λ w u. omega (
    arith,
    count-and_le (λ (m : WorkspaceMembership). str_eq m.workspace_id w) (λ m. str_eq m.user_id u)
        shop.memberships.0,
    at_most_one "ann" "bob" "eve" "joe" u refl refl refl refl refl refl,
  );
  one_id = λ id. at_most_one "m1" "m2" "m3" "m4" id refl refl refl refl refl refl;
}

shop-IsCurrent : IsCurrent list_table 5 shop.memberships
unfolding IsCurrent
shop-IsCurrent = refl

admit_leave-race_example :
    (admit_leave list_table "shop" "ann" shop.memberships ≡ ok ann)
    × (admit_leave list_table "shop" "bob" shop.memberships ≡ ok bob)
    × (count_owners list_table "shop" (
          list_table.settle
            (commit_leave list_table "shop" "bob" bob
              (commit_leave list_table "shop" "ann" ann shop)).memberships)
        ≡ 0)
unfolding get_membership count_owners
admit_leave-race_example =
    admit_leave-race list_table list_table-IsReplacing "shop" "ann" "bob" shop ann bob refl
      shop-IsKeyed refl refl refl refl refl refl

-- Eve, an admin, makes Joe an editor and cannot touch an owner.
holders-update_role-remove_example :
    (holders list_table "shop" "ann" owner
        (update_role list_table find_user "shop" "joe" editor eve 5 shop).0
      ≡ 1)
    × (holders list_table "shop" "ann" owner (remove list_table "shop" "joe" eve shop).0 ≡ 1)
holders-update_role-remove_example =
    holders-update_role-remove list_table list_table-IsReplacing find_user eve refl "shop" "joe"
      editor 5 shop "shop" "ann" owner shop-IsKeyed shop-IsCurrent (omega arith)

-- Ann makes Eve the owner, and Bob leaves.
abbrev transferred : World list_table
transferred = settled (transfer_ownership list_table find_user "shop" "eve" "ann" 5 shop).0

abbrev after_leave : World list_table
after_leave = settled (leave list_table "shop" "bob" transferred).0

Calls-HasOwner_example :
    IsKeyed list_table after_leave.memberships
    × (1 ≤ count_owners list_table "shop" after_leave.memberships)
unfolding count_owners
Calls-HasOwner_example =
    Calls-HasOwner list_table list_table-IsReplacing find_user "shop"
      (next (transferring "shop" "eve" "ann" 5 shop-IsCurrent) (next (leaving "shop" "bob") done))
      refl (shop-IsKeyed, omega arith)
