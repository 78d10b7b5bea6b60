-- ===== src/Api/Events/EventBuffer/Stranding.antt =====
-- What is left behind by an insert that fails (api/src/events/event-buffer.service.ts).
use staminads.Common.{
  ◌+◌, ◌≤◌, ◌<◌, String, ◌≡◌, refl, sym, ap, ◌∙◌, Bool, true, false, none, List, [], ◌∷◌, ◌++◌,
  arith, inl, inr, Bool-cases, length, length-append, if◌then◌else◌, ◌||◌, leb, ◌==◌, str_eq,
  eq_iff, String-cases, filter,
}
use mathlib.Core.List.{append-nil, append_assoc}
use staminads.Common.Dict.{put, has}
use staminads.Api.Events.EventBuffer.{
  EventBuffer, items, is_empty, begin_flush, start_flush_timer, stop_flush_timer, add,
  max_buffer_size,
}
use staminads.Api.Events.EventBuffer.Items.{
  items-put_self, items-put_other, has-put_other, has-remove_other,
}

module _ {Event : Type 0} where
  -- Events wait for the workspace, no timer is set for it and no flush of it is under way.
  pub record IsStranded (workspace : String) (s : EventBuffer Event) : Type 0 where
    pub waiting : 1 ≤ length (items s.buffers workspace)
    pub no_timer : has s.flush_timers workspace ≡ false
    pub no_flush : has s.flushing_workspaces workspace ≡ false

  -- What a step for one workspace leaves alone at another, `k`.
  pub record Untouched (k : String) (s t : EventBuffer Event) : Type 0 where
    pub events : items t.buffers k ≡ items s.buffers k
    pub timers : has t.flush_timers k ≡ has s.flush_timers k
    pub flags : has t.flushing_workspaces k ≡ has s.flushing_workspaces k

  Untouched-trans :
      (k : String) (s t u : EventBuffer Event) → Untouched k s t → Untouched k t u → Untouched k s u
  Untouched-trans k s t u a b = record {
    events = b.events ∙ a.events;
    timers = b.timers ∙ a.timers;
    flags = b.flags ∙ a.flags;
  }

  module _ (workspace k : String) (other : str_eq workspace k ≡ false) where
    stop-Untouched : (s : EventBuffer Event) → Untouched k s (stop_flush_timer workspace s)
    unfolding stop_flush_timer
    stop-Untouched s = elim (Bool-cases (has s.flush_timers workspace)) [
      | inl set ↦ rw set (record {
        events = refl;
        timers = has-remove_other s.flush_timers workspace k other;
        flags = refl;
      })
      | inr none_ ↦ rw none_ (record { events = refl; timers = refl; flags = refl })
    ]

    start-Untouched :
        (b : Bool) (s : EventBuffer Event)
        → Untouched k s (if b then start_flush_timer workspace s else s)
    unfolding start_flush_timer
    start-Untouched false s = record { events = refl; timers = refl; flags = refl }
    start-Untouched true s = elim (Bool-cases (has s.flush_timers workspace)) [
      | inl set ↦ rw set (record { events = refl; timers = refl; flags = refl })
      | inr none_ ↦ rw none_ (record {
        events = refl;
        timers = has-put_other s.flush_timers workspace tt k other;
        flags = refl;
      })
    ]

    begin_flush-Untouched : (s : EventBuffer Event) → Untouched k s (begin_flush workspace s).0
    unfolding begin_flush
    begin_flush-Untouched s =
        let t = stop_flush_timer workspace s in
        elim (Bool-cases
          (is_empty (items t.buffers workspace) || has t.flushing_workspaces workspace)) [
            | inl nothing ↦ rw nothing (stop-Untouched s)
            | inr something ↦ rw something (
                Untouched-trans k s t _ (stop-Untouched s) (record {
                  events = items-put_other t.buffers workspace [] k other;
                  timers = refl;
                  flags = has-put_other t.flushing_workspaces workspace tt k other;
                }))
          ]

    maybe-Untouched :
        (b : Bool) (s : EventBuffer Event)
        → Untouched k s (if b then begin_flush workspace s else (s, none)).0
    maybe-Untouched true s = begin_flush-Untouched s
    maybe-Untouched false s = record { events = refl; timers = refl; flags = refl }

  pub add-Untouched :
      (workspace_id : Event → String) (e : Event) (k : String) (s : EventBuffer Event)
      → str_eq (workspace_id e) k ≡ false
      → Untouched k s (add workspace_id e s).0
  unfolding add
  add-Untouched workspace_id e k s other =
      let w = workspace_id e in
      let xs = items s.buffers w ++ e ∷ [] in
      let t = record s { buffers = put s.buffers w xs } in
      let u = if length xs == 1 then start_flush_timer w t else t in
      Untouched-trans k s t _
        (record { events = items-put_other s.buffers w xs k other; timers = refl; flags = refl })
        (Untouched-trans k t u _ (start-Untouched w k other (length xs == 1) t)
          (maybe-Untouched w k other (leb max_buffer_size (length xs)) u))

  -- The buffer after some calls of `add`.
  abbrev pub add_all : (Event → String) → List Event → EventBuffer Event → EventBuffer Event
  add_all workspace_id [] s = s
  add_all workspace_id (e ∷ rest) s = add_all workspace_id rest (add workspace_id e s).0

  add-small :
      (workspace_id : Event → String) (e : Event) (s : EventBuffer Event)
      → 1 ≤ length (items s.buffers (workspace_id e))
      → length (items s.buffers (workspace_id e)) + 1 < max_buffer_size
      → add workspace_id e s ≡ (
        record s {
          buffers = put s.buffers (workspace_id e) (items s.buffers (workspace_id e) ++ e ∷ []);
        },
        none,
      )
  unfolding add
  add-small workspace_id e s one small =
      let n = length-append {0} (items s.buffers (workspace_id e)) (e ∷ []) in
      let many : (length (items s.buffers (workspace_id e) ++ e ∷ []) == 1) ≡ false =
        ground (arith, n) in
      let below : leb max_buffer_size (length (items s.buffers (workspace_id e) ++ e ∷ []))
          ≡ false =
        ground (arith, n) in
      rw (many, below)

  -- The events of one workspace among several.
  abbrev pub events_of : (Event → String) → String → List Event → List Event
  events_of workspace_id k = filter (λ e. str_eq (workspace_id e) k)

  -- Adding one event to a workspace whose events are stranded.
  add-Joins :
      (workspace_id : Event → String) (e : Event) (s : EventBuffer Event)
      → IsStranded (workspace_id e) s
      → length (items s.buffers (workspace_id e)) + 1 < max_buffer_size
      → IsStranded (workspace_id e) (add workspace_id e s).0
        × (items (add workspace_id e s).0.buffers (workspace_id e)
            ≡ items s.buffers (workspace_id e) ++ e ∷ [])
  add-Joins workspace_id e s st small =
      let k = workspace_id e in
      let joined = items-put_self s.buffers k (items s.buffers k ++ e ∷ []) in
      rw (add-small workspace_id e s st.waiting small) (
        record {
          waiting = rw joined (omega (arith, length-append {0} (items s.buffers k) (e ∷ [])));
          no_timer = st.no_timer;
          no_flush = st.no_flush;
        },
        joined,
      )

  -- While events of a workspace are stranded, further events of it only join them, as long as the
  -- buffer stays under its bound: no timer is set and nothing is flushed. Events of other
  -- workspaces change nothing of this.
  pub add_all-IsStranded :
      (workspace_id : Event → String) (k : String) (events : List Event) (s : EventBuffer Event)
      → IsStranded k s
      → length (items s.buffers k) + length events < max_buffer_size
      → IsStranded k (add_all workspace_id events s)
        × (items (add_all workspace_id events s).buffers k
            ≡ items s.buffers k ++ events_of workspace_id k events)
  add_all-IsStranded workspace_id k [] s st small = (st, sym (append-nil _))
  add_all-IsStranded workspace_id k (e ∷ rest) s st small = elim (String-cases (workspace_id e) k) [
    | inl same ↦
        let (st', joined) = add-Joins workspace_id e s (rw same st) (rw same (omega arith)) in
        let s' = (add workspace_id e s).0 in
        let joined' : items s'.buffers k ≡ items s.buffers k ++ e ∷ [] = rw same at joined in
        let (st'', all) =
          add_all-IsStranded workspace_id k rest s' (rw same at st')
            (rw joined' (omega (arith, length-append {0} (items s.buffers k) (e ∷ [])))) in
        (
          st'',
          rw ((eq_iff (workspace_id e) k).1 same) (
              all
              ∙ ap (λ xs. xs ++ events_of workspace_id k rest) joined'
              ∙ append_assoc (items s.buffers k) (e ∷ []) _),
        )
    | inr other ↦
        let u = add-Untouched workspace_id e k s other in
        let s' = (add workspace_id e s).0 in
        let (st'', all) =
          add_all-IsStranded workspace_id k rest s'
            (record {
              waiting = rw u.events st.waiting;
              no_timer = u.timers ∙ st.no_timer;
              no_flush = u.flags ∙ st.no_flush;
            })
            (rw u.events (omega arith)) in
        (st'', rw other (all ∙ ap (λ xs. xs ++ events_of workspace_id k rest) u.events))
  ]
