-- ===== src/Api/Permissions.antt =====
-- api/src/common/permissions.ts and the roles of api/src/common/entities/membership.entity.ts.
pub mod Order
mod Tests
use staminads.Common.{ℕ, Bool, true, false, ltb, List, [], ◌∷◌, ◌||◌, filter}

pub data Role : Type 0 where
  owner : Role
  admin : Role
  editor : Role
  viewer : Role

abbrev pub is_owner : Role → Bool
is_owner owner = true
is_owner _ = false

-- `===` on roles
abbrev pub same_role : Role → Role → Bool
same_role owner owner = true
same_role admin admin = true
same_role editor editor = true
same_role viewer viewer = true
same_role _ _ = false

abbrev pub role_hierarchy : Role → ℕ
role_hierarchy owner = 4
role_hierarchy admin = 3
role_hierarchy editor = 2
role_hierarchy viewer = 1

pub data Permission : Type 0 where
  analytics_view : Permission
  analytics_export : Permission
  filters_manage : Permission
  annotations_manage : Permission
  integrations_manage : Permission
  workspace_settings : Permission
  workspace_smtp : Permission
  workspace_delete : Permission
  api_keys_view : Permission
  api_keys_manage : Permission
  members_invite : Permission
  members_manage : Permission
  members_remove : Permission
  ownership_transfer : Permission

-- `PERMISSIONS`
abbrev pub permissions : Permission → List Role
permissions analytics_view = owner ∷ admin ∷ editor ∷ viewer ∷ []
permissions analytics_export = owner ∷ admin ∷ editor ∷ []
permissions filters_manage = owner ∷ admin ∷ editor ∷ []
permissions annotations_manage = owner ∷ admin ∷ editor ∷ []
permissions integrations_manage = owner ∷ admin ∷ []
permissions workspace_settings = owner ∷ admin ∷ []
permissions workspace_smtp = owner ∷ []
permissions workspace_delete = owner ∷ []
permissions api_keys_view = owner ∷ admin ∷ []
permissions api_keys_manage = owner ∷ admin ∷ []
permissions members_invite = owner ∷ admin ∷ []
permissions members_manage = owner ∷ admin ∷ []
permissions members_remove = owner ∷ admin ∷ []
permissions ownership_transfer = owner ∷ []

-- The keys of `PERMISSIONS`, in their order.
abbrev pub all_permissions : List Permission
all_permissions =
    analytics_view ∷ analytics_export ∷ filters_manage ∷ annotations_manage ∷ integrations_manage
    ∷ workspace_settings ∷ workspace_smtp ∷ workspace_delete ∷ api_keys_view ∷ api_keys_manage
    ∷ members_invite ∷ members_manage ∷ members_remove ∷ ownership_transfer ∷ []

abbrev pub includes : List Role → Role → Bool
includes [] role = false
includes (r ∷ rest) role = same_role r role || includes rest role

unfoldable pub has_permission : Role → Permission → Bool
has_permission role permission = includes (permissions permission) role

unfoldable pub can_modify_member : Role → Role → Bool
can_modify_member actor_role target_role =
    ltb (role_hierarchy target_role) (role_hierarchy actor_role)

unfoldable pub get_permissions_for_role : Role → List Permission
get_permissions_for_role role =
    filter (λ permission. includes (permissions permission) role) all_permissions

unfoldable pub get_roles_with_permission : Permission → List Role
get_roles_with_permission permission = permissions permission
