-- ===== src/Api/Events/EventBuffer/Failure.antt =====
-- The buffer after a failed insert (api/src/events/event-buffer.service.ts).
use staminads.Common.{◌≤◌, String, ◌≡◌, false, Option, none, some, List, [], length}
use staminads.Common.Dict.{has}
use staminads.Api.Events.EventBuffer.{EventBuffer, items}

module _ {Event : Type 0} where
  -- A flush that goes on to the insert has a batch, and leaves no timer and an empty buffer.
  record IsUnderWay (k : String) (t : EventBuffer Event) (batch : List Event) : Type 0 where
    some_events : 1 ≤ length batch
    no_timer : has t.flush_timers k ≡ false
    emptied : items t.buffers k ≡ []

  abbrev UnderWay : String → EventBuffer Event × Option (List Event) → Type 0
  UnderWay k (t, none) = Unit
  UnderWay k (t, some batch) = IsUnderWay k t batch
