-- ===== src/Api/Events/EventBuffer/Conservation.antt =====
-- The accounts of the event buffer (api/src/events/event-buffer.service.ts): what was added for a
-- workspace against what is stored, being inserted and buffered.
use mathlib.Core.List.{append-nil}
use staminads.Common.{
  String, ◌≡◌, sym, ap, ◌∙◌, Option, none, some, List, [], ◌++◌, inl, inr, String-cases,
}
use staminads.Common.Dict.{put, has}
use staminads.Api.Events.EventBuffer.{EventBuffer, items}
use staminads.Api.Events.EventBuffer.World.{World, launch, flush_step}
use staminads.Api.Events.EventBuffer.Items.{
  items-put_self, items-put_other, items-has, has-put_self, has-put_other,
}
use staminads.Api.Events.EventBuffer.Flushing.{SameEvents, Starts, Flushes, begin_flush-Flushes}

module _ {Event : Type 0} where
  -- Per workspace: what is stored, what is being inserted and what is buffered make up what was
  -- added, in this order; and a flush is under way exactly if the workspace is marked so.
  pub record IsConserved (w : World Event) : Type 0 where
    pub all_kept :
        (k : String)
        → items w.stored k ++ (items w.in_flight k ++ items w.buffer.buffers k) ≡ items w.added k
    pub locked : (k : String) → has w.in_flight k ≡ has w.buffer.flushing_workspaces k

  pub same-IsConserved :
      (s t : EventBuffer Event) (w : World Event)
      → SameEvents t s
      → IsConserved (record w { buffer = s })
      → IsConserved (record w { buffer = t })
  same-IsConserved s t w same c = record {
    all_kept = λ k. rw same.buffers (c.all_kept k);
    locked = λ k. rw same.flags (c.locked k);
  }

  module _ (workspace : String) (s t : EventBuffer Event) (w : World Event) (batch : List Event)
      (st : Starts workspace s t batch) (c : IsConserved (record w { buffer = s })) where
    idle_before : items w.in_flight workspace ≡ []
    idle_before = items-has w.in_flight workspace (c.locked workspace ∙ st.unlocked)

    starts-all_kept :
        (k : String)
        → items w.stored k ++ (items (put w.in_flight workspace batch) k ++ items t.buffers k)
          ≡ items w.added k
    starts-all_kept k = elim (String-cases workspace k) [
      | inl e ↦ rw (← e) (
          rw st.emptied (
            ap (λ xs. items w.stored workspace ++ xs)
              (ap (λ xs. xs ++ items (put s.buffers workspace []) workspace)
                  (items-put_self w.in_flight workspace batch)
                ∙ ap (λ xs. batch ++ xs) (items-put_self s.buffers workspace [])
                ∙ append-nil batch
                ∙ st.batch_eq
                ∙ ap (λ xs. xs ++ items s.buffers workspace) (sym idle_before))
            ∙ c.all_kept workspace))
      | inr other ↦ rw st.emptied (
          ap (λ xs. items w.stored k ++ xs)
            (ap (λ xs. xs ++ items (put s.buffers workspace []) k)
                (items-put_other w.in_flight workspace batch k other)
              ∙ ap (λ xs. items w.in_flight k ++ xs)
                  (items-put_other s.buffers workspace [] k other))
          ∙ c.all_kept k)
    ]

    starts-locked :
        (k : String) → has (put w.in_flight workspace batch) k ≡ has t.flushing_workspaces k
    starts-locked k = elim (String-cases workspace k) [
      | inl e ↦ rw (← e) (
          rw st.locked (
            has-put_self w.in_flight workspace batch
            ∙ sym (has-put_self s.flushing_workspaces workspace tt)))
      | inr other ↦ rw st.locked (
          has-put_other w.in_flight workspace batch k other
          ∙ c.locked k
          ∙ sym (has-put_other s.flushing_workspaces workspace tt k other))
    ]

  pub launch-IsConserved :
      (workspace : String) (s : EventBuffer Event) (w : World Event)
      (r : EventBuffer Event × Option (List Event))
      → Flushes workspace s r
      → IsConserved (record w { buffer = s })
      → IsConserved (launch workspace r w)
  launch-IsConserved workspace s w (t, none) same c = same-IsConserved s t w same c
  launch-IsConserved workspace s w (t, some batch) st c = record {
    all_kept = starts-all_kept workspace s t w batch st c;
    locked = starts-locked workspace s t w batch st c;
  }

  pub flush_step-IsConserved :
      (workspace : String) (w : World Event) → IsConserved w → IsConserved (flush_step workspace w)
  unfolding flush_step
  flush_step-IsConserved workspace w c =
      launch-IsConserved workspace w.buffer w _ (begin_flush-Flushes workspace w.buffer)
        (record { all_kept = c.all_kept; locked = c.locked })
