-- ===== src/Sdk/Sender/Tests.antt =====
-- Runs of sdk/src/transport/sender.ts, and the theorems at them.
use staminads.Common.{ℕ, ◌≡◌, ◌≢◌, refl, true, false, some, none, List, [], ◌∷◌, arith}
use staminads.Sdk.Sender.{
  QueuedPayload, answered, http_error, aborted, send_session, enqueue, save_queue, overflow,
  send_session_direct, Sender, enqueue_step, handle_online, flush_step, opened, idle, Reach, start,
  after, putting_off, going_online, turn, Browser, taken, rejected, send_session_beacon,
  call_beacon, try_fetch, fetch_called, beacon_called,
}
use staminads.Sdk.Sender.Queue.{IsAccounted, Reach-IsAccounted}
use staminads.Sdk.Sender.Flush.{run, run-handle_online}
use staminads.Sdk.Sender.Results.{IsReported, send_session-queued}

abbrev waiting : List (QueuedPayload ℕ)
waiting = record { payload = 1; queued_at = 10 } ∷ record { payload = 2; queued_at = 20 } ∷ []

waiting_some : waiting ≢ []
waiting_some e = ground arith

abbrev away : Sender ℕ
away = handle_online 30 (opened waiting)

-- The first request fails, another payload is put off meanwhile, the second request succeeds.
abbrev meanwhile : Sender ℕ
meanwhile = enqueue_step 3 35 (flush_step (http_error "HTTP 503") away)

abbrev finished : Sender ℕ
finished = flush_step answered (flush_step answered meanwhile)

finished_queue :
    finished.queue
    ≡ (record { payload = 1; queued_at = 10 } ∷ record { payload = 3; queued_at = 35 } ∷ [])
unfolding handle_online flush_step enqueue_step enqueue save_queue overflow send_session_direct
finished_queue = refl

finished_Reach : Reach (opened waiting) finished
finished_Reach =
    after
      (after
        (after (after (after start (going_online 30)) (turn (http_error "HTTP 503")))
          (putting_off 3 35))
        (turn answered))
      (turn answered)

Reach-IsAccounted_example : IsAccounted finished
Reach-IsAccounted_example = Reach-IsAccounted waiting finished (omega arith) finished_Reach

send_session-queued_example :
    let answer = send_session false (aborted "signal is aborted") 3 35 waiting in
    IsReported 3 35 waiting answer.1.queued answer.0
    × (answer.1.success ≡ true → answer.1.queued ≡ false)
send_session-queued_example = send_session-queued false (aborted "signal is aborted") 3 35 waiting

-- A browser with a body that is too long for sendBeacon.
abbrev long_body : Browser
long_body = record {
  is_offline = false;
  fetch_later_throws = none;
  body_length = 20000;
  beacon = some taken;
  fetch_throws = false;
}

long_body_run :
    send_session_beacon long_body 3 35 waiting
    ≡ record { queue = waiting; calls = fetch_called false ∷ []; answer = true }
unfolding send_session_beacon try_fetch
long_body_run = refl

-- A short body that sendBeacon rejects and fetch throws on.
abbrev refused_body : Browser
refused_body = record long_body { body_length = 200; beacon = some rejected; fetch_throws = true }

refused_body_run : send_session_beacon refused_body 3 35 waiting ≡ record {
  queue = waiting;
  calls = beacon_called rejected ∷ fetch_called true ∷ [];
  answer = false;
}
unfolding send_session_beacon call_beacon try_fetch
refused_body_run = refl

run-handle_online_example :
    ((run
        (http_error "HTTP 503" ∷ answered ∷ answered ∷ [])
        (handle_online 30 (opened waiting))).flushing
      ≡ idle)
    × ((run
          (http_error "HTTP 503" ∷ answered ∷ answered ∷ [])
          (handle_online 30 (opened waiting))).queue
        ≡ (record { payload = 1; queued_at = 10 } ∷ []))
unfolding send_session_direct
run-handle_online_example =
    run-handle_online 30 (http_error "HTTP 503" ∷ answered ∷ answered ∷ []) (opened waiting) refl
      waiting_some (omega arith) refl
