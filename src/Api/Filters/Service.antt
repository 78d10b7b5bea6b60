-- ===== src/Api/Filters/Service.antt =====
-- delete of api/src/filters/filters.service.ts. The filters are part of the settings of their
-- workspace: what WorkspacesService.get reads and WorkspacesService.update writes is a dictionary
-- from the ids of the workspaces to their filters.
use staminads.Common.{
  String, Bool, not, Option, none, some, List, [], ◌∷◌, ◌++◌, any, filter, str_eq, if◌then◌else◌,
}
use staminads.Common.Dict.{Dict, get, put}
use staminads.Common.Texts.{◌<>◌}
use staminads.Api.Members.{Answer, ok, refused, not_found}
use staminads.Api.Filters.Evaluator.{FilterDefinition}

-- The filters of the workspaces, and the events `filters.changed` and `workspace.settings.changed`
-- that were emitted, with the workspace of each.
pub record FilterStore : Type 0 where
  pub workspaces : Dict (List FilterDefinition)
  pub emitted : List (String × String)

-- `f.id === filterId`
abbrev pub has_id : String → FilterDefinition → Bool
has_id id f = str_eq f.id id

-- updateWorkspaceFilters, and the event after it.
unfoldable pub update_workspace_filters : String → List FilterDefinition → FilterStore → FilterStore
update_workspace_filters workspace filters s = record s {
  workspaces = put s.workspaces workspace filters;
  emitted =
      s.emitted ++ ("workspace.settings.changed", workspace) ∷ ("filters.changed", workspace) ∷ [];
}

abbrev pub delete_from :
    String → String → Option (List FilterDefinition) → FilterStore → FilterStore × Answer Unit
delete_from workspace id none s =
    (s, refused (not_found ("Workspace " <> workspace <> " not found")))
delete_from workspace id (some filters) s =
    if any (has_id id) filters
    then (update_workspace_filters workspace (filter (λ f. not (has_id id f)) filters) s, ok tt)
    else (s, refused (not_found ("Filter " <> id <> " not found in workspace " <> workspace)))

unfoldable pub delete : String → String → FilterStore → FilterStore × Answer Unit
delete workspace id s = delete_from workspace id (get s.workspaces workspace) s
