-- ===== src/Api/Permissions/Tests.antt =====
-- The permission table at concrete roles.
use staminads.Common.{true, false, ◌≡◌, refl, [], ◌∷◌}
use staminads.Api.Permissions.{
  viewer, editor, admin, analytics_view, analytics_export, filters_manage, annotations_manage,
  workspace_smtp, has_permission, get_permissions_for_role,
}

editor_permissions :
    get_permissions_for_role editor
    ≡ (analytics_view ∷ analytics_export ∷ filters_manage ∷ annotations_manage ∷ [])
unfolding get_permissions_for_role
editor_permissions = refl

admin_has_no_smtp : has_permission admin workspace_smtp ≡ false
unfolding has_permission
admin_has_no_smtp = refl

viewer_can_view : has_permission viewer analytics_view ≡ true
unfolding has_permission
viewer_can_view = refl
