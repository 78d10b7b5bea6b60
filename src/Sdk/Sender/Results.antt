-- ===== src/Sdk/Sender/Results.antt =====
-- What the answers of sdk/src/transport/sender.ts say about the queue.
use staminads.Common.{
  ℕ, suc, zero, ◌-◌, ◌≤◌, Bool, true, false, List, [], ◌∷◌, ◌++◌, length, drop, ◌≡◌, refl, arith,
  length-append,
}
use staminads.Sdk.Sender.{
  QueuedPayload, Fetch, answered, http_error, aborted, failed, send_session, enqueue, save_queue,
  with_payload, max_queue_size,
}

drop-last :
    {A : Type 0} (n : ℕ) (xs : List A) (x : A)
    → n ≤ length xs
    → (ys : List A) × (drop n (xs ++ x ∷ []) ≡ ys ++ x ∷ [])
drop-last zero xs x h = (xs, refl)
drop-last (suc n) [] x h = absurd (omega arith)
drop-last (suc n) (y ∷ xs) x h = drop-last n xs x (omega arith)

module _ {Payload : Type 0} where
  abbrev pub item : Payload → ℕ → QueuedPayload Payload
  item payload now = record { payload = payload; queued_at = now }

  -- The limit never drops the payload that comes last.
  pub enqueue-last :
      (payload : Payload) (now : ℕ) (queue : List (QueuedPayload Payload))
      → (rest : List (QueuedPayload Payload)) × (enqueue payload now queue
          ≡ rest ++ item payload now ∷ [])
  unfolding enqueue save_queue
  enqueue-last payload now queue =
      drop-last (length (with_payload payload now queue) - max_queue_size) queue (item payload now)
        (omega (arith, length-append queue (item payload now ∷ [])))

  -- What the queue is when sendSession has answered, by the `queued` of its answer.
  abbrev pub IsReported :
      Payload → ℕ → List (QueuedPayload Payload) → Bool → List (QueuedPayload Payload) → Type 0
  IsReported payload now queue true queue' =
      (rest : List (QueuedPayload Payload)) × (queue' ≡ rest ++ item payload now ∷ [])
  IsReported payload now queue false queue' = queue' ≡ queue

  -- sendSession says `queued` exactly when the payload is the last of the queue now, and otherwise
  -- has left the queue alone; a success is never queued.
  pub send_session-queued :
      (offline : Bool) (outcome : Fetch) (payload : Payload) (now : ℕ)
      (queue : List (QueuedPayload Payload))
      → let answer = send_session offline outcome payload now queue in
        IsReported payload now queue answer.1.queued answer.0
        × (answer.1.success ≡ true → answer.1.queued ≡ false)
  unfolding send_session
  send_session-queued true outcome payload now queue =
      (enqueue-last payload now queue, λ h. absurd (ground arith))
  send_session-queued false answered payload now queue = (refl, λ _. refl)
  send_session-queued false (http_error message) payload now queue = (refl, λ _. refl)
  send_session-queued false (aborted message) payload now queue =
      (enqueue-last payload now queue, λ h. absurd (ground arith))
  send_session-queued false (failed message) payload now queue = (refl, λ _. refl)
