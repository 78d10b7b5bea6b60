-- ===== src/Sdk/Sender/Queue.antt =====
-- What becomes of the payloads that wait (sdk/src/transport/sender.ts).
use staminads.Common.{
  ℕ, ◌+◌, ◌-◌, ◌≤◌, Bool, List, [], ◌∷◌, ◌++◌, length, length-drop, ◌≡◌, refl, ap, arith,
  Bool-cases, inl, inr,
}
use staminads.Common.Count.{count, count-append, count-take-drop}
use staminads.Sdk.Sender.{
  QueuedPayload, max_queue_size, Fetch, send_session_direct, save_queue, overflow, with_payload,
  enqueue, is_expired, Flushing, idle, running, Sender, enqueue_step, start_flush, handle_online,
  handle_online_from, merge_back, flush_from, flush_step, Step, putting_off, going_online, turn,
  Reach, start, after, opened,
}

module _ {Payload : Type 0} where
  -- The items that handleOnline has in hand.
  abbrev pub held : Flushing Payload → List (QueuedPayload Payload)
  held idle = []
  held (running now todo failed_items) = failed_items ++ todo

  -- By any test, as many items entered as were sent, expired, were trimmed, are in hand or wait; and
  -- the queue is bounded.
  pub record IsAccounted (s : Sender Payload) : Type 0 where
    pub accounts :
        (p : QueuedPayload Payload → Bool)
        → count p s.entered
          ≡ count p s.sent
            + (count p s.expired
                + (count p s.trimmed + (count p (held s.flushing) + count p s.queue)))
    pub bounded : length s.queue ≤ max_queue_size

  length-save_queue :
      (queue : List (QueuedPayload Payload)) → length (save_queue queue) ≤ max_queue_size
  unfolding save_queue
  length-save_queue queue = omega (arith, length-drop (length queue - max_queue_size) queue)

  count-save_queue :
      (p : QueuedPayload Payload → Bool) (queue : List (QueuedPayload Payload))
      → count p (overflow queue) + count p (save_queue queue) ≡ count p queue
  unfolding save_queue overflow
  count-save_queue p queue = count-take-drop p (length queue - max_queue_size) queue

  enqueue_step-IsAccounted :
      (payload : Payload) (now : ℕ) (s : Sender Payload)
      → IsAccounted s
      → IsAccounted (enqueue_step payload now s)
  unfolding enqueue_step enqueue
  enqueue_step-IsAccounted payload now s h = record {
    accounts = λ p. omega (
      arith,
      h.accounts p,
      count-save_queue p (with_payload payload now s.queue),
      count-append p s.trimmed (overflow (with_payload payload now s.queue)),
      count-append p s.queue (record { payload = payload; queued_at = now } ∷ []),
      count-append p s.entered (record { payload = payload; queued_at = now } ∷ []),
    );
    bounded = length-save_queue (with_payload payload now s.queue);
  }

  -- The number of items in hand, once it is known how far handleOnline is.
  count-held :
      (p : QueuedPayload Payload → Bool) (s : Sender Payload) (f : Flushing Payload)
      → s.flushing ≡ f
      → count p (held s.flushing) ≡ count p (held f)
  count-held p s f e = ap (λ g. count p (held g)) e

  start_flush-IsAccounted :
      (now : ℕ) (queue : List (QueuedPayload Payload)) (s : Sender Payload)
      → s.flushing ≡ idle
      → s.queue ≡ queue
      → IsAccounted s
      → IsAccounted (start_flush now queue s)
  start_flush-IsAccounted now [] s e k h = h
  start_flush-IsAccounted now (item ∷ rest) s e k h = record {
    accounts = λ p. omega (arith, h.accounts p, count-held p s idle e, ap (count p) k);
    bounded = omega arith;
  }

  handle_online_from-IsAccounted :
      (f : Flushing Payload) (now : ℕ) (s : Sender Payload)
      → s.flushing ≡ f
      → IsAccounted s
      → IsAccounted (handle_online_from f now s)
  handle_online_from-IsAccounted idle now s e h = start_flush-IsAccounted now s.queue s e refl h
  handle_online_from-IsAccounted (running _ _ _) now s e h = h

  merge_back-IsAccounted :
      (now : ℕ) (failed_items : List (QueuedPayload Payload)) (s : Sender Payload)
      → s.flushing ≡ running now [] failed_items
      → IsAccounted s
      → IsAccounted (merge_back failed_items s)
  merge_back-IsAccounted now [] s e h = record {
    accounts = λ p. omega (arith, h.accounts p, count-held p s (running now [] []) e);
    bounded = h.bounded;
  }
  merge_back-IsAccounted now (item ∷ rest) s e h = record {
    accounts = λ p. omega (
      arith,
      h.accounts p,
      count-held p s (running now [] (item ∷ rest)) e,
      count-save_queue p ((item ∷ rest) ++ s.queue),
      count-append p s.trimmed (overflow ((item ∷ rest) ++ s.queue)),
      count-append p (item ∷ rest) s.queue,
      count-append p rest s.queue,
      count-append p (item ∷ rest) [],
      count-append p rest [],
    );
    bounded = length-save_queue ((item ∷ rest) ++ s.queue);
  }

  turn-IsAccounted :
      (now : ℕ) (item : QueuedPayload Payload) (rest failed_items : List (QueuedPayload Payload))
      (outcome : Fetch) (s : Sender Payload)
      → s.flushing ≡ running now (item ∷ rest) failed_items
      → IsAccounted s
      → IsAccounted (flush_from (running now (item ∷ rest) failed_items) outcome s)
  turn-IsAccounted now item rest failed_items outcome s e h =
      elim (Bool-cases (is_expired now item)) [
        | inl old ↦ rw old (record {
          accounts = λ p. omega (
            arith,
            h.accounts p,
            count-held p s (running now (item ∷ rest) failed_items) e,
            count-append p failed_items (item ∷ rest),
            count-append p failed_items rest,
            count-append p s.expired (item ∷ []),
          );
          bounded = h.bounded;
        })
        | inr fresh ↦ rw fresh (elim (Bool-cases (send_session_direct outcome).success) [
          | inl good ↦ rw good (record {
            accounts = λ p. omega (
              arith,
              h.accounts p,
              count-held p s (running now (item ∷ rest) failed_items) e,
              count-append p failed_items (item ∷ rest),
              count-append p failed_items rest,
              count-append p s.sent (item ∷ []),
            );
            bounded = h.bounded;
          })
          | inr bad ↦ rw bad (record {
            accounts = λ p. omega (
              arith,
              h.accounts p,
              count-held p s (running now (item ∷ rest) failed_items) e,
              count-append p failed_items (item ∷ rest),
              count-append p (failed_items ++ item ∷ []) rest,
              count-append p failed_items (item ∷ []),
            );
            bounded = h.bounded;
          })
        ])
      ]

  flush_from-IsAccounted :
      (f : Flushing Payload) (outcome : Fetch) (s : Sender Payload)
      → s.flushing ≡ f
      → IsAccounted s
      → IsAccounted (flush_from f outcome s)
  flush_from-IsAccounted idle outcome s e h = h
  flush_from-IsAccounted (running now [] failed_items) outcome s e h =
      merge_back-IsAccounted now failed_items s e h
  flush_from-IsAccounted (running now (item ∷ rest) failed_items) outcome s e h =
      turn-IsAccounted now item rest failed_items outcome s e h

  Step-IsAccounted : {s w : Sender Payload} → Step s w → IsAccounted s → IsAccounted w
  unfolding handle_online flush_step
  Step-IsAccounted {s} (putting_off payload now) h = enqueue_step-IsAccounted payload now s h
  Step-IsAccounted {s} (going_online now) h = handle_online_from-IsAccounted s.flushing now s refl h
  Step-IsAccounted {s} (turn outcome) h = flush_from-IsAccounted s.flushing outcome s refl h

  -- A page that finds a queue of at most 100 items: after any interleaving of payloads that are put
  -- off, `online` events and turns of the loop with any outcome, every item that entered the queue
  -- is accounted for exactly once (sent, expired, trimmed by the limit, in the hands of
  -- handleOnline, or in the queue), and the queue has at most 100 items.
  pub Reach-IsAccounted :
      (queue : List (QueuedPayload Payload)) (s : Sender Payload)
      → length queue ≤ max_queue_size
      → Reach (opened queue) s
      → IsAccounted s
  Reach-IsAccounted queue s short start = record { accounts = λ p. omega arith; bounded = short }
  Reach-IsAccounted queue s short (after {u} earlier step) =
      Step-IsAccounted step (Reach-IsAccounted queue u short earlier)
