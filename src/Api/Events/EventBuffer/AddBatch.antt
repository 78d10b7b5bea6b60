-- ===== src/Api/Events/EventBuffer/AddBatch.antt =====
-- addBatch of api/src/events/event-buffer.service.ts: it awaits `add` for each event, so that other
-- calls and timers may run between two events, and it ends with the exception of a flush that fails.
use staminads.Common.{
  ℕ, suc, String, Bool, true, false, Option, none, some, List, [], ◌∷◌, if◌then◌else◌,
}
use staminads.Api.Events.EventBuffer.{add, batch_order}
use staminads.Api.Events.EventBuffer.World.{World, add_step, success_step, failure_step}

-- What happens while a call of `add` is awaited: all that others do, and whether the insert of the
-- flush fails, if the call has begun one.
pub record Await (Event : Type 0) : Type 0 where
  pub meanwhile : World Event → World Event
  pub insert_fails : Bool

-- The end of addBatch: the events that it has not added, and whether it throws.
pub record BatchRun (Event : Type 0) : Type 0 where
  pub world : World Event
  pub left : List Event
  pub has_failed : Bool

module _ {Event : Type 0} where
  -- `add` after its flush, if it has begun one, and whether it throws.
  abbrev pub finish_add :
      Await Event → String → Option (List Event) → World Event → World Event × Bool
  finish_add a workspace none w = (a.meanwhile w, false)
  finish_add a workspace (some batch) w =
      if a.insert_fails
      then (failure_step workspace batch (a.meanwhile w), true)
      else (success_step workspace batch (a.meanwhile w), false)

  -- `await this.add(event)`
  unfoldable pub await_add :
      (Event → String) → Await Event → Event → World Event → World Event × Bool
  await_add workspace_id a event w =
      finish_add a (workspace_id event) (add workspace_id event w.buffer).1
        (add_step workspace_id event w)

  abbrev pub stop_or_go_on : World Event × Bool → List Event → BatchRun Event → BatchRun Event
  stop_or_go_on (w, true) rest run = record { world = w; left = rest; has_failed = true }
  stop_or_go_on (w, false) rest run = run

  -- The second loop, from its event number `i` on.
  unfoldable pub add_each :
      (Event → String) → (ℕ → Await Event) → ℕ → List Event → World Event → BatchRun Event
  add_each workspace_id awaits i [] w = record { world = w; left = []; has_failed = false }
  add_each workspace_id awaits i (event ∷ rest) w =
      let added = await_add workspace_id (awaits i) event w in
      let run = add_each workspace_id awaits (suc i) rest added.0 in stop_or_go_on added rest run

  unfoldable pub add_batch :
      (Event → String) → (ℕ → Await Event) → List Event → World Event → BatchRun Event
  add_batch workspace_id awaits events w =
      add_each workspace_id awaits 0 (batch_order workspace_id events) w
