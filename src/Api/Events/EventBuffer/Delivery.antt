-- ===== src/Api/Events/EventBuffer/Delivery.antt =====
-- The steps of the event loop and the accounts of Api/Events/EventBuffer/Conservation.antt
-- (api/src/events/event-buffer.service.ts).
use mathlib.Core.List.{append_assoc}
use staminads.Common.{
  String, ◌≡◌, refl, sym, ap, ◌∙◌, Bool, true, false, none, some, List, [], ◌∷◌, ◌++◌, inl, inr,
  length, if◌then◌else◌, leb, ◌==◌, String-cases,
}
use staminads.Common.Dict.{get, put, remove, has}
use staminads.Api.Events.EventBuffer.{
  EventBuffer, items, or_nil, begin_flush, start_flush_timer, add, max_buffer_size, flush_succeeded,
  flush_failed,
}
use staminads.Api.Events.EventBuffer.World.{
  World, extend, add_step, success_step, failure_step, Step, adding, timer, flushing, success,
  failure, Reach, start, next, idle,
}
use staminads.Api.Events.EventBuffer.Items.{
  items-put_self, items-put_other, items-remove_self, items-remove_other, has-remove_self,
  has-remove_other,
}
use staminads.Api.Events.EventBuffer.Flushing.{
  SameEvents, Flushes, begin_flush-Flushes, start_flush_timer-SameEvents,
}
use staminads.Api.Events.EventBuffer.Conservation.{
  IsConserved, same-IsConserved, launch-IsConserved, flush_step-IsConserved,
}

module _ {Event : Type 0} where
  module _ (workspace : String) (event : Event) (w : World Event) (c : IsConserved w) where
    abbrev pushed : EventBuffer Event
    pushed = record w.buffer {
      buffers = put w.buffer.buffers workspace (items w.buffer.buffers workspace ++ event ∷ []);
    }

    pushed-all_kept :
        (k : String)
        → items w.stored k ++ (items w.in_flight k ++ items pushed.buffers k)
          ≡ items (extend w.added workspace (event ∷ [])) k
    pushed-all_kept k = elim (String-cases workspace k) [
      | inl e ↦
          let stored = items w.stored workspace in
          let flying = items w.in_flight workspace in
          let kept = items w.buffer.buffers workspace in
          rw (← e) (
            ap (λ xs. stored ++ (flying ++ xs))
              (items-put_self w.buffer.buffers workspace (kept ++ event ∷ []))
            ∙ simp append_assoc refl
            ∙ ap (λ xs. xs ++ event ∷ []) (c.all_kept workspace)
            ∙ sym (items-put_self w.added workspace (items w.added workspace ++ event ∷ [])))
      | inr other ↦
          ap (λ xs. items w.stored k ++ (items w.in_flight k ++ xs))
            (items-put_other w.buffer.buffers workspace _ k other)
          ∙ c.all_kept k
          ∙ sym (items-put_other w.added workspace _ k other)
    ]

    pushed-IsConserved :
        IsConserved (record w { buffer = pushed; added = extend w.added workspace (event ∷ []) })
    pushed-IsConserved = record { all_kept = pushed-all_kept; locked = c.locked }

  timed-SameEvents :
      (b : Bool) (workspace : String) (s : EventBuffer Event)
      → SameEvents (if b then start_flush_timer workspace s else s) s
  timed-SameEvents true workspace s = start_flush_timer-SameEvents workspace s
  timed-SameEvents false workspace s = record { buffers = refl; flags = refl }

  maybe-Flushes :
      (b : Bool) (workspace : String) (s : EventBuffer Event)
      → Flushes workspace s (if b then begin_flush workspace s else (s, none))
  maybe-Flushes true workspace s = begin_flush-Flushes workspace s
  maybe-Flushes false workspace s = record { buffers = refl; flags = refl }

  add_step-IsConserved :
      (workspace_id : Event → String) (event : Event) (w : World Event)
      → IsConserved w
      → IsConserved (add_step workspace_id event w)
  unfolding add_step add
  add_step-IsConserved workspace_id event w c =
      let workspace = workspace_id event in
      let s = pushed workspace event w c in
      let n = length (items w.buffer.buffers workspace ++ event ∷ []) in
      let w' = record w { added = extend w.added workspace (event ∷ []) } in
      let t = if n == 1 then start_flush_timer workspace s else s in
      launch-IsConserved workspace t w' _ (maybe-Flushes (leb max_buffer_size n) workspace t) (
        same-IsConserved s t w' (timed-SameEvents (n == 1) workspace s)
          (pushed-IsConserved workspace event w c))

  module _ (workspace : String) (batch : List Event) (w : World Event)
      (flying : get w.in_flight workspace ≡ some batch) (c : IsConserved w) where
    kept_before :
        items w.stored workspace ++ (batch ++ items w.buffer.buffers workspace)
        ≡ items w.added workspace
    kept_before =
        ap (λ o. items w.stored workspace ++ (or_nil o ++ items w.buffer.buffers workspace))
          (sym flying)
        ∙ c.all_kept workspace

    unlocked :
        (k : String)
        → has (remove w.in_flight workspace) k
          ≡ has (remove w.buffer.flushing_workspaces workspace) k
    unlocked k = elim (String-cases workspace k) [
      | inl e ↦ rw (← e) (
          has-remove_self w.in_flight workspace
          ∙ sym (has-remove_self w.buffer.flushing_workspaces workspace))
      | inr other ↦
          has-remove_other w.in_flight workspace k other
          ∙ c.locked k
          ∙ sym (has-remove_other w.buffer.flushing_workspaces workspace k other)
    ]

    success-all_kept :
        (k : String)
        → items (extend w.stored workspace batch) k
            ++ (items (remove w.in_flight workspace) k ++ items w.buffer.buffers k)
          ≡ items w.added k
    success-all_kept k = elim (String-cases workspace k) [
      | inl e ↦
          let kept = items w.buffer.buffers workspace in
          rw (← e) (
            ap (λ xs. xs ++ (items (remove w.in_flight workspace) workspace ++ kept))
              (items-put_self w.stored workspace (items w.stored workspace ++ batch))
            ∙ ap (λ xs. (items w.stored workspace ++ batch) ++ (xs ++ kept))
                (items-remove_self w.in_flight workspace)
            ∙ append_assoc (items w.stored workspace) batch kept
            ∙ kept_before)
      | inr other ↦
          ap (λ xs. xs ++ (items (remove w.in_flight workspace) k ++ items w.buffer.buffers k))
            (items-put_other w.stored workspace _ k other)
          ∙ ap (λ xs. items w.stored k ++ (xs ++ items w.buffer.buffers k))
              (items-remove_other w.in_flight workspace k other)
          ∙ c.all_kept k
    ]

    success_step-IsConserved : IsConserved (success_step workspace batch w)
    unfolding success_step flush_succeeded
    success_step-IsConserved = record { all_kept = success-all_kept; locked = unlocked }

    failure-all_kept :
        (k : String)
        → items w.stored k
            ++ (items (remove w.in_flight workspace) k
                ++ items
                    (put w.buffer.buffers workspace (batch ++ items w.buffer.buffers workspace))
                    k)
          ≡ items w.added k
    failure-all_kept k = elim (String-cases workspace k) [
      | inl e ↦ rw (← e) (
          ap (λ xs. items w.stored workspace ++ xs)
            (ap
                (λ xs.
                  xs
                  ++ items
                      (put w.buffer.buffers workspace (batch ++ items w.buffer.buffers workspace))
                      workspace)
                (items-remove_self w.in_flight workspace)
              ∙ items-put_self w.buffer.buffers workspace _)
          ∙ kept_before)
      | inr other ↦
          ap (λ xs. items w.stored k ++ xs)
            (ap
                (λ xs.
                  xs
                  ++ items
                      (put w.buffer.buffers workspace (batch ++ items w.buffer.buffers workspace))
                      k)
                (items-remove_other w.in_flight workspace k other)
              ∙ ap (λ xs. items w.in_flight k ++ xs)
                  (items-put_other w.buffer.buffers workspace _ k other))
          ∙ c.all_kept k
    ]

    failure_step-IsConserved : IsConserved (failure_step workspace batch w)
    unfolding failure_step flush_failed
    failure_step-IsConserved = record { all_kept = failure-all_kept; locked = unlocked }

  pub Step-IsConserved :
      (workspace_id : Event → String) (w u : World Event)
      → Step workspace_id w u
      → IsConserved w
      → IsConserved u
  Step-IsConserved workspace_id w u (adding event) c = add_step-IsConserved workspace_id event w c
  Step-IsConserved workspace_id w u (timer workspace _) c = flush_step-IsConserved workspace w c
  Step-IsConserved workspace_id w u (flushing workspace) c = flush_step-IsConserved workspace w c
  Step-IsConserved workspace_id w u (success workspace batch h) c =
      success_step-IsConserved workspace batch w h c
  Step-IsConserved workspace_id w u (failure workspace batch h) c =
      failure_step-IsConserved workspace batch w h c

  idle-IsConserved : IsConserved (idle {Event = Event})
  idle-IsConserved = record { all_kept = λ k. unfold get in refl; locked = λ k. unfold get in refl }

  -- After any interleaving of adds, timers, flushes and inserts that succeed or fail, the events of
  -- a workspace that are stored, then those being inserted, then those buffered are together
  -- exactly the events that were added for it, in that order; and at most one flush of a workspace
  -- is under way, which its flag shows. A failed insert is taken to have stored nothing.
  pub Reach-IsConserved :
      (workspace_id : Event → String) (w : World Event) → Reach workspace_id w → IsConserved w
  Reach-IsConserved workspace_id w start = idle-IsConserved
  Reach-IsConserved workspace_id w (next {v} r step) =
      Step-IsConserved workspace_id v w step (Reach-IsConserved workspace_id v r)
