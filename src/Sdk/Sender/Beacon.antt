-- ===== src/Sdk/Sender/Beacon.antt =====
-- What sendSessionBeacon of sdk/src/transport/sender.ts does with a payload when a page unloads.
use staminads.Common.{ℕ, ◌≤◌, ◌*◌, Bool, true, false, not, List, [], ◌∷◌, ◌++◌, ◌≡◌, any, All}
use staminads.Common.Count.{count}
use staminads.Sdk.Sender.{
  QueuedPayload, Browser, taken, rejected, thrown, BeaconCall, fetch_later_called, beacon_called,
  fetch_called, BeaconRun,
}
use staminads.Sdk.Sender.Results.{item}

-- Whether a call took the payload.
abbrev pub takes : BeaconCall → Bool
takes (fetch_later_called throws) = not throws
takes (beacon_called taken) = true
takes (beacon_called rejected) = false
takes (beacon_called thrown) = false
takes (fetch_called throws) = not throws

-- sendBeacon is called with short bodies only.
abbrev pub IsShort : Browser → BeaconCall → Type 0
IsShort b (fetch_later_called throws) = Unit
IsShort b (beacon_called outcome) = b.body_length ≤ 15 * 1024
IsShort b (fetch_called throws) = Unit

-- When nothing took the payload, the last way of sending it has failed too.
abbrev pub IsExhausted : Browser → Bool → Type 0
IsExhausted b true = Unit
IsExhausted b false = b.fetch_throws ≡ true

module _ {Payload : Type 0} where
  -- What holds of a run whose payload is not put off.
  pub record IsSent (b : Browser) (queue : List (QueuedPayload Payload)) (run : BeaconRun Payload)
      : Type 0 where
    told : run.answer ≡ any takes run.calls
    once : count takes run.calls ≤ 1
    short : All (IsShort b) run.calls
    exhausted : IsExhausted b run.answer
    kept : run.queue ≡ queue

  -- What sendSessionBeacon did, by whether the browser was offline: then it calls nothing, answers
  -- false and puts the payload last in the queue.
  abbrev pub IsFaithful :
      Bool → Browser → Payload → ℕ → List (QueuedPayload Payload) → BeaconRun Payload → Type 0
  IsFaithful true b payload now queue run =
      (run.answer ≡ false)
      × (run.calls ≡ [])
      × ((rest : List (QueuedPayload Payload)) × (run.queue ≡ rest ++ item payload now ∷ []))
  IsFaithful false b payload now queue run = IsSent b queue run
