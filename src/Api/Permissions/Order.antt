-- ===== src/Api/Permissions/Order.antt =====
-- Permissions and the hierarchy of roles (api/src/common/permissions.ts).
use staminads.Common.{◌≤◌, true, ◌≡◌, arith}
use staminads.Api.Permissions.{Role, Permission, role_hierarchy, has_permission}

-- A role that ranks at least as high as another has every permission of the other.
has_permission-le :
    (r s : Role) (permission : Permission)
    → role_hierarchy r ≤ role_hierarchy s
    → has_permission r permission ≡ true
    → has_permission s permission ≡ true
unfolding has_permission
has_permission-le r s permission h k = ground arith
