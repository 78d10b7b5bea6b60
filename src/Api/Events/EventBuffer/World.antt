-- ===== src/Api/Events/EventBuffer/World.antt =====
-- The event buffer of api/src/events/event-buffer.service.ts with what is around it: the inserts
-- that are under way, the events that ClickHouse has stored and those that were ever added. The
-- steps are those of the event loop; the outcome and the time of an insert are left open.
use staminads.Common.{String, ◌≡◌, true, Option, none, some, List, [], ◌∷◌, ◌++◌}
use staminads.Common.Dict.{Dict, get, put, remove, has}
use staminads.Api.Events.EventBuffer.{
  EventBuffer, items, begin_flush, flush_succeeded, flush_failed, add,
}

pub record World (Event : Type 0) : Type 0 where
  pub buffer : EventBuffer Event
  pub in_flight : Dict (List Event)
  pub stored : Dict (List Event)
  pub added : Dict (List Event)

abbrev pub extend : {Event : Type 0} → Dict (List Event) → String → List Event → Dict (List Event)
extend m workspace events = put m workspace (items m workspace ++ events)

module _ {Event : Type 0} where
  -- The start of an insert, or nothing.
  abbrev pub launch : String → EventBuffer Event × Option (List Event) → World Event → World Event
  launch workspace (s, none) w = record w { buffer = s }
  launch workspace (s, some batch) w = record w {
    buffer = s;
    in_flight = put w.in_flight workspace batch;
  }

  unfoldable pub flush_step : String → World Event → World Event
  flush_step workspace w = launch workspace (begin_flush workspace w.buffer) w

  unfoldable pub add_step : (Event → String) → Event → World Event → World Event
  add_step workspace_id event w =
      launch (workspace_id event) (add workspace_id event w.buffer)
        (record w { added = extend w.added (workspace_id event) (event ∷ []) })

  unfoldable pub success_step : String → List Event → World Event → World Event
  success_step workspace batch w = record w {
    buffer = flush_succeeded workspace w.buffer;
    in_flight = remove w.in_flight workspace;
    stored = extend w.stored workspace batch;
  }

  unfoldable pub failure_step : String → List Event → World Event → World Event
  failure_step workspace batch w = record w {
    buffer = flush_failed workspace batch w.buffer;
    in_flight = remove w.in_flight workspace;
  }

  -- One step of the event loop.
  pub data Step (workspace_id : Event → String) (w : World Event) : World Event → Type 0 where
    adding : (event : Event) → Step workspace_id w (add_step workspace_id event w)
    -- A timer's callback.
    timer :
        (workspace : String)
        → has w.buffer.flush_timers workspace ≡ true
        → Step workspace_id w (flush_step workspace w)
    -- flushAll and onModuleDestroy
    flushing : (workspace : String) → Step workspace_id w (flush_step workspace w)
    success :
        (workspace : String) (batch : List Event)
        → get w.in_flight workspace ≡ some batch
        → Step workspace_id w (success_step workspace batch w)
    failure :
        (workspace : String) (batch : List Event)
        → get w.in_flight workspace ≡ some batch
        → Step workspace_id w (failure_step workspace batch w)

  abbrev pub idle : World Event
  idle = record {
    buffer = record { buffers = []; flush_timers = []; flushing_workspaces = [] };
    in_flight = [];
    stored = [];
    added = [];
  }

  pub data Reach (workspace_id : Event → String) : World Event → Type 0 where
    start : Reach workspace_id idle
    next : {v u : World Event} → Reach workspace_id v → Step workspace_id v u → Reach workspace_id u
