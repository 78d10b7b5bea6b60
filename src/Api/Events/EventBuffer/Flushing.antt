-- ===== src/Api/Events/EventBuffer/Flushing.antt =====
-- What the parts of `flush` and `add` do to the buffers and to the flag of a flush under way
-- (api/src/events/event-buffer.service.ts).
use staminads.Common.{
  String, ◌≡◌, refl, false, Option, none, some, List, [], inl, inr, Bool-cases, or-eq-false, ◌||◌,
}
use staminads.Common.Dict.{put, has}
use staminads.Api.Events.EventBuffer.{
  EventBuffer, items, is_empty, begin_flush, start_flush_timer, stop_flush_timer,
}

module _ {Event : Type 0} where
  -- The buffers and the flags are those of `t`.
  pub record SameEvents (s t : EventBuffer Event) : Type 0 where
    pub buffers : s.buffers ≡ t.buffers
    pub flags : s.flushing_workspaces ≡ t.flushing_workspaces

  pub stop_flush_timer-SameEvents :
      (workspace : String) (s : EventBuffer Event) → SameEvents (stop_flush_timer workspace s) s
  unfolding stop_flush_timer
  stop_flush_timer-SameEvents workspace s = elim (Bool-cases (has s.flush_timers workspace)) [
    | inl set ↦ rw set (record { buffers = refl; flags = refl })
    | inr none_ ↦ rw none_ (record { buffers = refl; flags = refl })
  ]

  pub start_flush_timer-SameEvents :
      (workspace : String) (s : EventBuffer Event) → SameEvents (start_flush_timer workspace s) s
  unfolding start_flush_timer
  start_flush_timer-SameEvents workspace s = elim (Bool-cases (has s.flush_timers workspace)) [
    | inl set ↦ rw set (record { buffers = refl; flags = refl })
    | inr none_ ↦ rw none_ (record { buffers = refl; flags = refl })
  ]

  -- The first part of `flush` takes the whole buffer of the workspace, and locks it.
  pub record Starts (workspace : String) (s t : EventBuffer Event) (batch : List Event)
      : Type 0 where
    pub unlocked : has s.flushing_workspaces workspace ≡ false
    pub batch_eq : batch ≡ items s.buffers workspace
    pub emptied : t.buffers ≡ put s.buffers workspace []
    pub locked : t.flushing_workspaces ≡ put s.flushing_workspaces workspace tt

  -- The two ways in which the first part of `flush` ends.
  abbrev pub Flushes : String → EventBuffer Event → EventBuffer Event × Option (List Event) → Type 0
  Flushes workspace s (t, none) = SameEvents t s
  Flushes workspace s (t, some batch) = Starts workspace s t batch

  pub begin_flush-Flushes :
      (workspace : String) (s : EventBuffer Event) → Flushes workspace s (begin_flush workspace s)
  unfolding begin_flush
  begin_flush-Flushes workspace s =
      let stopped = stop_flush_timer workspace s in
      let same = stop_flush_timer-SameEvents workspace s in
      elim (Bool-cases
        (is_empty (items stopped.buffers workspace) || has stopped.flushing_workspaces workspace)) [
          | inl nothing ↦ rw nothing same
          | inr something ↦ rw something (record {
            unlocked =
                rw (← same.flags)
                  (or-eq-false (is_empty (items stopped.buffers workspace)) _ something).1;
            batch_eq = rw same.buffers;
            emptied = rw same.buffers;
            locked = rw same.flags;
          })
        ]
