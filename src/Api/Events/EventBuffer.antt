-- ===== src/Api/Events/EventBuffer.antt =====
-- api/src/events/event-buffer.service.ts. Between two `await`s a method runs without interruption,
-- so `flush` is two steps: what runs before the insert into ClickHouse, and what runs when the
-- insert has succeeded or failed. A timer's handle is not modelled, only that it is set.
pub mod World
pub mod Items
pub mod Flushing
pub mod Conservation
pub mod Delivery
pub mod Stranding
pub mod Failure
pub mod AddBatch
pub mod Ended
pub mod Grouping
pub mod Batches
mod Tests
use staminads.Common.{
  ℕ, ◌+◌, String, Bool, true, false, ◌||◌, Option, none, some, List, [], ◌∷◌, ◌++◌, leb, length,
  if◌then◌else◌, ◌==◌, str_eq, filter, not, map,
}
use staminads.Common.Dict.{Dict, get, put, remove, has, keys}

abbrev pub max_buffer_size : ℕ
max_buffer_size = 500

pub record EventBuffer (Event : Type 0) : Type 0 where
  pub buffers : Dict (List Event)
  pub flush_timers : Dict (Unit {0})
  pub flushing_workspaces : Dict (Unit {0})

abbrev pub or_nil : {Event : Type 0} → Option (List Event) → List Event
or_nil none = []
or_nil (some events) = events

-- The events under a key, none if the key is missing.
abbrev pub items : {Event : Type 0} → Dict (List Event) → String → List Event
items m key = or_nil (get m key)

abbrev pub is_empty : {Event : Type 0} → List Event → Bool
is_empty [] = true
is_empty (_ ∷ _) = false

module _ {Event : Type 0} where
  unfoldable pub total_size : Dict (List Event) → ℕ
  total_size [] = 0
  total_size ((workspace, events) ∷ rest) = length events + total_size rest

  -- An absent or empty workspace asks for the total.
  unfoldable pub get_buffer_size : Option String → EventBuffer Event → ℕ
  get_buffer_size none s = total_size s.buffers
  get_buffer_size (some workspace) s =
      if str_eq workspace "" then total_size s.buffers else length (items s.buffers workspace)

  unfoldable pub start_flush_timer : String → EventBuffer Event → EventBuffer Event
  start_flush_timer workspace s =
      if has s.flush_timers workspace
      then s
      else record s { flush_timers = put s.flush_timers workspace tt }

  unfoldable pub stop_flush_timer : String → EventBuffer Event → EventBuffer Event
  stop_flush_timer workspace s =
      if has s.flush_timers workspace
      then record s { flush_timers = remove s.flush_timers workspace }
      else s

  -- flush, up to the insert: the events to insert, if there is anything to do.
  unfoldable pub begin_flush : String → EventBuffer Event → EventBuffer Event × Option (List Event)
  begin_flush workspace s =
      let stopped = stop_flush_timer workspace s in
      if is_empty (items stopped.buffers workspace) || has stopped.flushing_workspaces workspace
      then (stopped, none)
      else (
        record stopped {
          buffers = put stopped.buffers workspace [];
          flushing_workspaces = put stopped.flushing_workspaces workspace tt;
        },
        some (items stopped.buffers workspace),
      )

  -- flush, when the insert has succeeded.
  unfoldable pub flush_succeeded : String → EventBuffer Event → EventBuffer Event
  flush_succeeded workspace s = record s {
    flushing_workspaces = remove s.flushing_workspaces workspace;
  }

  -- flush, when the insert has failed: the events go back to the front of the buffer.
  unfoldable pub flush_failed : String → List Event → EventBuffer Event → EventBuffer Event
  flush_failed workspace batch s = record s {
    buffers = put s.buffers workspace (batch ++ items s.buffers workspace);
    flushing_workspaces = remove s.flushing_workspaces workspace;
  }

  -- add, up to the flush that it may wait for.
  unfoldable pub add :
      (Event → String) → Event → EventBuffer Event → EventBuffer Event × Option (List Event)
  add workspace_id event s =
      let workspace = workspace_id event in
      let buffer = items s.buffers workspace ++ event ∷ [] in
      let pushed = record s { buffers = put s.buffers workspace buffer } in
      let timed = if length buffer == 1 then start_flush_timer workspace pushed else pushed in
      if leb max_buffer_size (length buffer) then begin_flush workspace timed else (timed, none)

  -- addBatch, up to its second loop: the groups in the order in which their workspaces first occur.
  unfoldable pub group_by_workspace :
      (Event → String) → Dict (List Event) → List Event → Dict (List Event)
  group_by_workspace workspace_id groups [] = groups
  group_by_workspace workspace_id groups (event ∷ rest) =
      let workspace = workspace_id event in
      group_by_workspace workspace_id (put groups workspace (items groups workspace ++ event ∷ []))
        rest

  unfoldable pub flatten_groups : Dict (List Event) → List Event
  flatten_groups [] = []
  flatten_groups ((workspace, events) ∷ rest) = events ++ flatten_groups rest

  -- The order in which the second loop takes the events.
  unfoldable pub batch_order : (Event → String) → List Event → List Event
  batch_order workspace_id events = flatten_groups (group_by_workspace workspace_id [] events)
