-- ===== src/Api/Events/EventBuffer/Batches.antt =====
-- What addBatch adds, and in which order (api/src/events/event-buffer.service.ts).
use staminads.Common.{Option, some, String, ◌≡◌, refl, none, List}
use staminads.Common.Dict.{Dict}
use staminads.Api.Events.EventBuffer.World.{World, launch}
use staminads.Api.Events.EventBuffer.{EventBuffer}

module _ {Event : Type 0} (workspace_id : Event → String) where
  pub added-launch :
      (j : String) (r : EventBuffer Event × Option (List Event)) (w : World Event)
      → (launch j r w).added ≡ w.added
  added-launch j (s, none) w = refl
  added-launch j (s, some batch) w = refl
