-- ===== src/Sdk/Sender/Flush.antt =====
-- A flush of sdk/src/transport/sender.ts that nothing interrupts, from the event `online` to its
-- end, against what it should leave.
use mathlib.Core.List.{append_assoc}
use staminads.Common.{
  ℕ, suc, ◌≤◌, ◌-◌, drop, ap, ◌∙◌, Bool-cases, inl, inr, ◌≢◌, List, [], ◌∷◌, ◌++◌, length, ◌≡◌,
  refl, arith, if◌then◌else◌,
}
use staminads.Sdk.Sender.{
  QueuedPayload, max_queue_size, Fetch, send_session_direct, save_queue, is_expired, idle, running,
  Sender, handle_online, flush_from, flush_step, merge_back, handle_online_from, start_flush,
}

module _ {Payload : Type 0} where
  -- The turns of the loop, with the outcomes of the requests in their order.
  abbrev pub run : List Fetch → Sender Payload → Sender Payload
  run [] s = s
  run (outcome ∷ later) s = run later (flush_step outcome s)

  -- What is to wait after a flush: the items that are not expired and whose request failed.
  abbrev pub to_retry : ℕ → List Fetch → List (QueuedPayload Payload) → List (QueuedPayload Payload)
  to_retry now [] todo = []
  to_retry now (outcome ∷ later) [] = []
  to_retry now (outcome ∷ later) (item ∷ rest) =
      let waiting = to_retry now later rest in
      if is_expired now item
      then waiting
      else if (send_session_direct outcome).success
      then waiting
      else item ∷ waiting

  run-end :
      (failed_items : List (QueuedPayload Payload)) (s : Sender Payload)
      → s.queue ≡ []
      → ((merge_back failed_items s).flushing ≡ idle)
        × ((merge_back failed_items s).queue ≡ save_queue (failed_items ++ []))
  unfolding save_queue
  run-end [] s k = (refl, k)
  run-end (item ∷ rest) s k = (refl, ap (λ waiting. save_queue ((item ∷ rest) ++ waiting)) k)

  -- It has no more items than there were.
  length-to_retry :
      (now : ℕ) (outcomes : List Fetch) (todo : List (QueuedPayload Payload))
      → length (to_retry now outcomes todo) ≤ length todo
  length-to_retry now [] todo = omega arith
  length-to_retry now (outcome ∷ later) [] = omega arith
  length-to_retry now (outcome ∷ later) (item ∷ rest) =
      ground (arith, length-to_retry now later rest)

  save_queue-short :
      (queue : List (QueuedPayload Payload))
      → length queue ≤ max_queue_size
      → save_queue queue ≡ queue
  unfolding save_queue
  save_queue-short queue h =
      let none_dropped : length queue - max_queue_size ≡ 0 = omega arith in
      ap (λ n. drop n queue) none_dropped

  run-running :
      (todo failed_items : List (QueuedPayload Payload)) (now : ℕ) (outcomes : List Fetch)
      (s : Sender Payload)
      → s.flushing ≡ running now todo failed_items
      → s.queue ≡ []
      → length outcomes ≡ suc (length todo)
      → ((run outcomes s).flushing ≡ idle)
        × ((run outcomes s).queue ≡ save_queue (failed_items ++ to_retry now outcomes todo))
  unfolding flush_step
  run-running todo failed_items now [] s e k h = absurd (omega arith)
  run-running [] failed_items now (outcome ∷ second ∷ later) s e k h = absurd (omega arith)
  run-running [] failed_items now (outcome ∷ []) s e k h =
      rw (ap (λ f. flush_from f outcome s) e) (run-end failed_items s k)
  run-running (item ∷ rest) failed_items now (outcome ∷ later) s e k h =
      rw (ap (λ f. flush_from f outcome s) e, run)
        (elim (Bool-cases (is_expired now item)) [
          | inl old ↦ rw old (
              run-running rest failed_items now later
                (record s {
                  flushing = running now rest failed_items;
                  expired = s.expired ++ item ∷ [];
                })
                refl k (omega arith))
          | inr fresh ↦ rw fresh (elim (Bool-cases (send_session_direct outcome).success) [
            | inl good ↦ rw good (
                run-running rest failed_items now later
                  (record s {
                    flushing = running now rest failed_items;
                    sent = s.sent ++ item ∷ [];
                  })
                  refl k (omega arith))
            | inr bad ↦ rw bad (
                rw⁻¹ (append_assoc failed_items (item ∷ []) (to_retry now later rest)) (
                  run-running rest (failed_items ++ item ∷ []) now later
                    (record s { flushing = running now rest (failed_items ++ item ∷ []) }) refl k
                    (omega arith)))
          ])
        ])

  run-start_flush :
      (queue : List (QueuedPayload Payload)) (now : ℕ) (outcomes : List Fetch) (s : Sender Payload)
      → queue ≢ []
      → length queue ≤ max_queue_size
      → length outcomes ≡ suc (length queue)
      → ((run outcomes (start_flush now queue s)).flushing ≡ idle)
        × ((run outcomes (start_flush now queue s)).queue ≡ to_retry now outcomes queue)
  run-start_flush [] now outcomes s some_items short h = absurd (some_items refl)
  run-start_flush (item ∷ rest) now outcomes s some_items short h =
      let (ended, left) =
        run-running (item ∷ rest) [] now outcomes
          (record s { queue = []; flushing = running now (item ∷ rest) [] }) refl refl h in
      (
        ended,
        left
            ∙ save_queue-short (to_retry now outcomes (item ∷ rest))
                (omega (arith, length-to_retry now outcomes (item ∷ rest))),
      )

  -- A flush that no payload comes between ends after one turn for each item and one more; then no
  -- flush is under way, and what waits is, in its order, what was there before less the items that
  -- were expired and those whose request succeeded. The queue is not empty, holds at most 100 items,
  -- and no other flush is under way when it begins.
  pub run-handle_online :
      (now : ℕ) (outcomes : List Fetch) (s : Sender Payload)
      → s.flushing ≡ idle
      → s.queue ≢ []
      → length s.queue ≤ max_queue_size
      → length outcomes ≡ suc (length s.queue)
      → ((run outcomes (handle_online now s)).flushing ≡ idle)
        × ((run outcomes (handle_online now s)).queue ≡ to_retry now outcomes s.queue)
  unfolding handle_online
  run-handle_online now outcomes s e some_items short h =
      rw (ap (λ f. handle_online_from f now s) e)
        (run-start_flush s.queue now outcomes s some_items short h)
