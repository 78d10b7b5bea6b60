-- ===== src/Sdk/Sender.antt =====
-- sdk/src/transport/sender.ts: how a payload is sent, and the queue of those that wait. The queue is
-- the item of the storage; what the browser and the network do is an input. Times are
-- milliseconds.

pub mod Queue
pub mod Flush
pub mod Results
pub mod Beacon
mod Tests
use staminads.Common.{
  ℕ, ◌-◌, ◌*◌, Bool, true, false, not, ◌&&◌, Option, none, some, List, [], ◌∷◌, ◌++◌, ltb, leb,
  length, take, drop, String, if◌then◌else◌,
}

pub record QueuedPayload (Payload : Type 0) : Type 0 where
  pub payload : Payload
  pub queued_at : ℕ

abbrev pub max_queue_size : ℕ
max_queue_size = 100

abbrev pub queue_ttl_ms : ℕ
queue_ttl_ms = 24 * 60 * 60 * 1000

-- What a fetch comes to: an answer that is ok, another answer with its message, an AbortError or
-- another exception with theirs.
pub data Fetch : Type 0 where
  answered : Fetch
  http_error : String → Fetch
  aborted : String → Fetch
  failed : String → Fetch

pub record SendResult : Type 0 where
  pub success : Bool
  pub error : Option String
  pub queued : Bool

abbrev pub succeeded : SendResult
succeeded = record { success = true; error = none; queued = false }

abbrev pub not_sent : String → SendResult
not_sent message = record { success = false; error = some message; queued = false }

abbrev pub put_off : String → SendResult
put_off message = record { success = false; error = some message; queued = true }

unfoldable pub send_session_direct : Fetch → SendResult
send_session_direct answered = succeeded
send_session_direct (http_error message) = not_sent message
send_session_direct (aborted message) = not_sent message
send_session_direct (failed message) = not_sent message

module _ {Payload : Type 0} where
  -- `queue.slice(-MAX_QUEUE_SIZE)`, and what it drops.
  unfoldable pub save_queue : List (QueuedPayload Payload) → List (QueuedPayload Payload)
  save_queue queue = drop (length queue - max_queue_size) queue

  unfoldable pub overflow : List (QueuedPayload Payload) → List (QueuedPayload Payload)
  overflow queue = take (length queue - max_queue_size) queue

  abbrev pub with_payload :
      Payload → ℕ → List (QueuedPayload Payload) → List (QueuedPayload Payload)
  with_payload payload now queue = queue ++ record { payload = payload; queued_at = now } ∷ []

  unfoldable pub enqueue : Payload → ℕ → List (QueuedPayload Payload) → List (QueuedPayload Payload)
  enqueue payload now queue = save_queue (with_payload payload now queue)

  unfoldable pub send_session :
      Bool
      → Fetch
      → Payload
      → ℕ
      → List (QueuedPayload Payload)
      → List (QueuedPayload Payload) × SendResult
  send_session true outcome payload now queue = (enqueue payload now queue, put_off "offline")
  send_session false answered payload now queue = (queue, succeeded)
  send_session false (http_error message) payload now queue = (queue, not_sent message)
  send_session false (aborted message) payload now queue =
      (enqueue payload now queue, put_off "Request timeout")
  send_session false (failed message) payload now queue = (queue, not_sent message)

  -- `now - item.queuedAt > QUEUE_TTL_MS`
  abbrev pub is_expired : ℕ → QueuedPayload Payload → Bool
  is_expired now item = ltb queue_ttl_ms (now - item.queued_at)

-- What the browser offers when a page unloads: fetchLater, if it has it, throws or not; the body's
-- length in UTF-16 units; what sendBeacon does, if it has it; whether fetch throws at once.
pub data BeaconOutcome : Type 0 where
  taken : BeaconOutcome
  rejected : BeaconOutcome
  thrown : BeaconOutcome

pub record Browser : Type 0 where
  pub is_offline : Bool
  pub fetch_later_throws : Option Bool
  pub body_length : ℕ
  pub beacon : Option BeaconOutcome
  pub fetch_throws : Bool

-- The calls that sendSessionBeacon makes, with what came of each: fetchLater and fetch throw or do
-- not.
pub data BeaconCall : Type 0 where
  fetch_later_called : Bool → BeaconCall
  beacon_called : BeaconOutcome → BeaconCall
  fetch_called : Bool → BeaconCall

-- The queue, the calls in their order, and the answer.
pub record BeaconRun (Payload : Type 0) : Type 0 where
  pub queue : List (QueuedPayload Payload)
  pub calls : List BeaconCall
  pub answer : Bool

-- `MAX_BEACON_SIZE`, in UTF-16 units of the body
abbrev pub max_beacon_size : ℕ
max_beacon_size = 15 * 1024

module _ {Payload : Type 0} where
  -- The last `return` of each branch, with the calls made.
  abbrev pub ended : List (QueuedPayload Payload) → List BeaconCall → Bool → BeaconRun Payload
  ended queue calls answer = record { queue = queue; calls = calls; answer = answer }

  -- 3. fetch with keepalive, after the calls before it.
  unfoldable pub try_fetch :
      Browser → List BeaconCall → List (QueuedPayload Payload) → BeaconRun Payload
  try_fetch b calls queue =
      if b.fetch_throws
      then ended queue (calls ++ fetch_called true ∷ []) false
      else ended queue (calls ++ fetch_called false ∷ []) true

  -- 2. sendBeacon, if the browser has it.
  unfoldable pub call_beacon :
      Option BeaconOutcome
      → Browser
      → List BeaconCall
      → List (QueuedPayload Payload)
      → BeaconRun Payload
  call_beacon (some taken) b calls queue = ended queue (calls ++ beacon_called taken ∷ []) true
  call_beacon (some rejected) b calls queue =
      try_fetch b (calls ++ beacon_called rejected ∷ []) queue
  call_beacon (some thrown) b calls queue = try_fetch b (calls ++ beacon_called thrown ∷ []) queue
  call_beacon none b calls queue = try_fetch b calls queue

  -- `useBeacon`
  abbrev pub try_beacon :
      Browser → List BeaconCall → List (QueuedPayload Payload) → BeaconRun Payload
  try_beacon b calls queue =
      if leb b.body_length max_beacon_size
      then call_beacon b.beacon b calls queue
      else try_fetch b calls queue

  -- 1. fetchLater, if the browser has it.
  abbrev pub try_fetch_later :
      Option Bool → Browser → List (QueuedPayload Payload) → BeaconRun Payload
  try_fetch_later (some false) b queue = ended queue (fetch_later_called false ∷ []) true
  try_fetch_later (some true) b queue = try_beacon b (fetch_later_called true ∷ []) queue
  try_fetch_later none b queue = try_beacon b [] queue

  unfoldable pub send_session_beacon :
      Browser → Payload → ℕ → List (QueuedPayload Payload) → BeaconRun Payload
  send_session_beacon b payload now queue =
      if b.is_offline
      then ended (enqueue payload now queue) [] false
      else try_fetch_later b.fetch_later_throws b queue

-- handleOnline, cut at its awaits: not under way, or the items still to send and those that failed.
pub data Flushing (Payload : Type 0) : Type 0 where
  idle : Flushing Payload
  running : ℕ → List (QueuedPayload Payload) → List (QueuedPayload Payload) → Flushing Payload

-- The sender, with a record of what became of the items: `entered` the queue, `sent` from it,
-- dropped because `expired`, or `trimmed` by the limit on its size.
pub record Sender (Payload : Type 0) : Type 0 where
  pub queue : List (QueuedPayload Payload)
  pub flushing : Flushing Payload
  pub entered : List (QueuedPayload Payload)
  pub sent : List (QueuedPayload Payload)
  pub expired : List (QueuedPayload Payload)
  pub trimmed : List (QueuedPayload Payload)

module _ {Payload : Type 0} where
  unfoldable pub enqueue_step : Payload → ℕ → Sender Payload → Sender Payload
  enqueue_step payload now s = record s {
    queue = enqueue payload now s.queue;
    entered = with_payload payload now s.entered;
    trimmed = s.trimmed ++ overflow (with_payload payload now s.queue);
  }

  abbrev pub start_flush : ℕ → List (QueuedPayload Payload) → Sender Payload → Sender Payload
  start_flush now [] s = s
  start_flush now (item ∷ rest) s = record s { queue = []; flushing = running now (item ∷ rest) [] }

  -- The callback of the event `online`.
  abbrev pub handle_online_from : Flushing Payload → ℕ → Sender Payload → Sender Payload
  handle_online_from idle now s = start_flush now s.queue s
  handle_online_from (running _ _ _) now s = s

  unfoldable pub handle_online : ℕ → Sender Payload → Sender Payload
  handle_online now s = handle_online_from s.flushing now s

  -- The items that failed go before those that came since, if there are any.
  abbrev pub merge_back : List (QueuedPayload Payload) → Sender Payload → Sender Payload
  merge_back [] s = record s { flushing = idle }
  merge_back (item ∷ rest) s = record s {
    queue = save_queue ((item ∷ rest) ++ s.queue);
    trimmed = s.trimmed ++ overflow ((item ∷ rest) ++ s.queue);
    flushing = idle;
  }

  -- One turn of the loop, or the end: an expired item is skipped, another is sent. (Turns without an
  -- await are steps of their own too.)
  abbrev pub flush_from : Flushing Payload → Fetch → Sender Payload → Sender Payload
  flush_from idle outcome s = s
  flush_from (running now [] failed_items) outcome s = merge_back failed_items s
  flush_from (running now (item ∷ rest) failed_items) outcome s =
      if is_expired now item
      then record s { flushing = running now rest failed_items; expired = s.expired ++ item ∷ [] }
      else if (send_session_direct outcome).success
      then record s { flushing = running now rest failed_items; sent = s.sent ++ item ∷ [] }
      else record s { flushing = running now rest (failed_items ++ item ∷ []) }

  unfoldable pub flush_step : Fetch → Sender Payload → Sender Payload
  flush_step outcome s = flush_from s.flushing outcome s

  -- sendSession puts a payload off (offline or timeout) whenever it likes; the browser goes online
  -- and the loop goes on whenever they may.
  pub data Step (s : Sender Payload) : Sender Payload → Type 0 where
    putting_off : (payload : Payload) (now : ℕ) → Step s (enqueue_step payload now s)
    going_online : (now : ℕ) → Step s (handle_online now s)
    turn : (outcome : Fetch) → Step s (flush_step outcome s)

  pub data Reach (s : Sender Payload) : Sender Payload → Type 0 where
    start : Reach s s
    after : {u w : Sender Payload} → Reach s u → Step u w → Reach s w

-- A page that has loaded, with the queue that an earlier one has left.
abbrev pub opened : {Payload : Type 0} → List (QueuedPayload Payload) → Sender Payload
opened queue = record {
  queue = queue;
  flushing = idle;
  entered = queue;
  sent = [];
  expired = [];
  trimmed = [];
}
