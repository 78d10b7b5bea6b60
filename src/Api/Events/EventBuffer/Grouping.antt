-- ===== src/Api/Events/EventBuffer/Grouping.antt =====
-- The groups of addBatch (api/src/events/event-buffer.service.ts) hold the events of each workspace
-- in their order.
use mathlib.Core.List.{append-nil, append_assoc}
use staminads.Common.{
  String, ◌≡◌, refl, sym, ap, ◌∙◌, false, none, List, [], ◌∷◌, ◌++◌, arith, All, All-append,
  filter-append, str_eq, str_eq-false, eq_iff, String-cases, inl, inr,
}
use staminads.Common.Dict.{Dict, get, put, get-put_other}
use staminads.Api.Events.EventBuffer.{items, group_by_workspace, flatten_groups, batch_order}
use staminads.Api.Events.EventBuffer.Stranding.{events_of}

module _ {Event : Type 0} (workspace_id : Event → String) where
  -- No workspace has two groups, and each group holds events of its workspace.
  abbrev IsGrouped : Dict (List Event) → Type 0
  IsGrouped [] = Unit
  IsGrouped ((j, events) ∷ rest) =
      (get rest j ≡ none) × All (λ e. workspace_id e ≡ j) events × IsGrouped rest

  events_of-foreign :
      (k j : String) (events : List Event)
      → str_eq j k ≡ false
      → All (λ e. workspace_id e ≡ j) events
      → events_of workspace_id k events ≡ []
  events_of-foreign k j [] other _ = refl
  events_of-foreign k j (e ∷ rest) other (own, owns) =
      rw (own, other) (events_of-foreign k j rest other owns)

  events_of-absent :
      (k : String) (groups : Dict (List Event))
      → get groups k ≡ none
      → IsGrouped groups
      → events_of workspace_id k (flatten_groups groups) ≡ []
  unfolding get flatten_groups
  events_of-absent k [] _ _ = refl
  events_of-absent k ((j, events) ∷ rest) gone (_, own, grouped) =
      let other : str_eq j k ≡ false = ground arith in
      filter-append _ events (flatten_groups rest)
      ∙ ap (λ xs. xs ++ events_of workspace_id k (flatten_groups rest))
          (events_of-foreign k j events other own)
      ∙ events_of-absent k rest (ground arith) grouped

  items-cons_self :
      (j : String) (events : List Event) (rest : Dict (List Event))
      → items ((j, events) ∷ rest) j ≡ events
  unfolding get
  items-cons_self j events rest = rw ((eq_iff j j).1 refl)

  items-cons_other :
      (j k : String) (events : List Event) (rest : Dict (List Event))
      → str_eq j k ≡ false
      → items ((j, events) ∷ rest) k ≡ items rest k
  unfolding get
  items-cons_other j k events rest other = rw other

  -- The groups after one more event.
  abbrev grouped_with : Dict (List Event) → Event → Dict (List Event)
  grouped_with groups e = put groups (workspace_id e) (items groups (workspace_id e) ++ e ∷ [])

  put_own :
      (j : String) (events : List Event) (rest : Dict (List Event)) (e : Event)
      → j ≡ workspace_id e
      → grouped_with ((j, events) ∷ rest) e ≡ (j, events ++ e ∷ []) ∷ rest
  unfolding put get
  put_own j events rest e same = ground (arith, eq_iff j (workspace_id e))

  put_foreign :
      (j : String) (events : List Event) (rest : Dict (List Event)) (e : Event)
      → str_eq j (workspace_id e) ≡ false
      → grouped_with ((j, events) ∷ rest) e ≡ (j, events) ∷ grouped_with rest e
  unfolding put get
  put_foreign j events rest e other = rw other

  grouped_with-IsGrouped :
      (groups : Dict (List Event)) (e : Event)
      → IsGrouped groups
      → IsGrouped (grouped_with groups e)
  grouped_with-IsGrouped [] e _ = unfold put get in (refl, (refl, tt), tt)
  grouped_with-IsGrouped ((j, events) ∷ rest) e (gone, own, grouped) =
      elim (String-cases j (workspace_id e)) [
        | inl same ↦
            rw (put_own j events rest e same)
              (gone, All-append _ events (e ∷ []) own (sym same, tt), grouped)
        | inr other ↦ rw (put_foreign j events rest e other) (
          get-put_other rest (workspace_id e) j _
                (str_eq-false _ j (λ same. cc (other, (eq_iff j (workspace_id e)).1 (sym same))))
              ∙ gone,
          own,
          grouped_with-IsGrouped rest e grouped,
        )
      ]

  one_or_none :
      (k j : String) (rest : Dict (List Event)) (e : Event)
      → j ≡ workspace_id e
      → get rest j ≡ none
      → IsGrouped rest
      → events_of workspace_id k (e ∷ []) ++ events_of workspace_id k (flatten_groups rest)
        ≡ events_of workspace_id k (flatten_groups rest) ++ events_of workspace_id k (e ∷ [])
  one_or_none k j rest e same gone grouped = elim (String-cases (workspace_id e) k) [
    | inl own ↦ rw (events_of-absent k rest (rw (same ∙ own) at gone) grouped) (append-nil _)
    | inr other ↦ rw other (sym (append-nil _))
  ]

  events_of-grouped_with :
      (k : String) (groups : Dict (List Event)) (e : Event)
      → IsGrouped groups
      → events_of workspace_id k (flatten_groups (grouped_with groups e))
        ≡ events_of workspace_id k (flatten_groups groups) ++ events_of workspace_id k (e ∷ [])
  unfolding flatten_groups
  events_of-grouped_with k [] e _ = unfold put get in refl
  events_of-grouped_with k ((j, events) ∷ rest) e (gone, own, grouped) =
      let chosen = events_of workspace_id k in
      elim (String-cases j (workspace_id e)) [
        | inl same ↦ rw (put_own j events rest e same) (
            filter-append _ (events ++ e ∷ []) (flatten_groups rest)
            ∙ ap (λ xs. xs ++ chosen (flatten_groups rest)) (filter-append _ events (e ∷ []))
            ∙ append_assoc (chosen events) (chosen (e ∷ [])) _
            ∙ ap (λ xs. chosen events ++ xs) (one_or_none k j rest e same gone grouped)
            ∙ sym (append_assoc (chosen events) _ _)
            ∙ ap (λ xs. xs ++ chosen (e ∷ [])) (sym (filter-append _ events (flatten_groups rest))))
        | inr other ↦ rw (put_foreign j events rest e other) (
            filter-append _ events (flatten_groups (grouped_with rest e))
            ∙ ap (λ xs. chosen events ++ xs) (events_of-grouped_with k rest e grouped)
            ∙ sym (append_assoc (chosen events) _ _)
            ∙ ap (λ xs. xs ++ chosen (e ∷ [])) (sym (filter-append _ events (flatten_groups rest))))
      ]

  events_of-group_by_workspace :
      (k : String) (groups : Dict (List Event)) (events : List Event)
      → IsGrouped groups
      → events_of workspace_id k (flatten_groups (group_by_workspace workspace_id groups events))
        ≡ events_of workspace_id k (flatten_groups groups) ++ events_of workspace_id k events
  unfolding group_by_workspace
  events_of-group_by_workspace k groups [] g = sym (append-nil _)
  events_of-group_by_workspace k groups (e ∷ rest) g =
      events_of-group_by_workspace k (grouped_with groups e) rest
        (grouped_with-IsGrouped groups e g)
      ∙ ap (λ xs. xs ++ events_of workspace_id k rest) (events_of-grouped_with k groups e g)
      ∙ append_assoc _ (events_of workspace_id k (e ∷ [])) _
      ∙ ap (λ xs. events_of workspace_id k (flatten_groups groups) ++ xs)
          (sym (filter-append (λ x. str_eq (workspace_id x) k) (e ∷ []) rest))

  -- Regrouping keeps the events of a workspace and their order.
  pub events_of-batch_order :
      (k : String) (events : List Event)
      → events_of workspace_id k (batch_order workspace_id events) ≡ events_of workspace_id k events
  unfolding batch_order
  events_of-batch_order k events =
      events_of-group_by_workspace k [] events tt ∙ unfold flatten_groups in refl
