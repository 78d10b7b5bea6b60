-- ===== src/Api/WorkspaceGuard/Deletion.antt =====
-- Which workspace loses a filter by the route filters.delete (api/src/filters/filters.controller.ts)
-- behind the guard of api/src/common/guards/workspace.guard.ts.
use staminads.Common.{
  ℕ, String, Bool, true, false, not, some, List, [], ◌∷◌, any, filter, ◌≡◌, refl, arith, str_eq,
}
use staminads.Common.Dict.{get, get-put_self, get-put_other}
use staminads.Api.Members.{WorkspaceMembership, MembershipTable, Refusal, ok}
use staminads.Api.Members.Service.{get_membership}
use staminads.Api.Filters.Evaluator.{FilterDefinition}
use staminads.Api.Filters.Service.{FilterStore, has_id, update_workspace_filters, delete}
use staminads.Api.WorkspaceGuard.{
  Request, jwt_user, workspace_of, authorize, can_activate, filters_delete,
}

any-filter_rest :
    {A : Type 0} (p : A → Bool) (xs : List A) → any p (filter (λ x. not (p x)) xs) ≡ false
any-filter_rest p [] = refl
any-filter_rest p (x ∷ xs) = ground (arith, any-filter_rest p xs)

-- The deletion of a filter that is there.
delete-found :
    (workspace id : String) (filters : List FilterDefinition) (s : FilterStore)
    → get s.workspaces workspace ≡ some filters
    → any (has_id id) filters ≡ true
    → delete workspace id s
      ≡ (update_workspace_filters workspace (filter (λ f. not (has_id id f)) filters) s, ok tt)
unfolding delete
delete-found workspace id filters s found there = rw found (rw there refl)

module _ (db : MembershipTable) where
  -- Where the service is not in demo mode, a member of one workspace, who names it in the body of a
  -- request to filters.delete, and names in the query any other workspace that exists and one of its
  -- filters, is answered with success, and that other workspace has lost the filter: no filter with
  -- the id is left in it, its other filters stay, and the member's own workspace is not touched. No
  -- membership in the other workspace is asked for.
  pub filters_delete-other_workspace :
      (no_workspace : Refusal) (user : String) (now : ℕ) (t : db.Table) (r : Request)
      (own theirs id : String) (m : WorkspaceMembership) (filters : List FilterDefinition)
      (s : FilterStore)
      → r.caller ≡ jwt_user user false
      → r.body.workspace_id ≡ some own
      → str_eq own "" ≡ false
      → get_membership db own user t ≡ some m
      → r.query.workspace_id ≡ some theirs
      → r.query.id ≡ some id
      → str_eq theirs own ≡ false
      → get s.workspaces theirs ≡ some filters
      → any (has_id id) filters ≡ true
      → let answer = filters_delete db no_workspace false now t r s in
        (answer.1 ≡ ok tt)
        × (get answer.0.workspaces theirs ≡ some (filter (λ f. not (has_id id f)) filters))
        × (any (has_id id) (filter (λ f. not (has_id id f)) filters) ≡ false)
        × (get answer.0.workspaces own ≡ get s.workspaces own)
  unfolding filters_delete can_activate workspace_of authorize update_workspace_filters
  filters_delete-other_workspace no_workspace user now t r own theirs id m filters s caller named
        some_text found place chosen apart present there =
      rw named (
        rw some_text (
          rw caller (
            rw found (
              rw place (
                rw chosen (
                  rw (delete-found theirs id filters s present there) (
                    refl,
                    get-put_self s.workspaces theirs (filter (λ f. not (has_id id f)) filters),
                    any-filter_rest (has_id id) filters,
                    get-put_other s.workspaces theirs own (filter (λ f. not (has_id id f)) filters)
                        apart,
                  )))))))
