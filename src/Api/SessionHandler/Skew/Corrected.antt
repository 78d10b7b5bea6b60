-- ===== src/Api/SessionHandler/Skew/Corrected.antt =====
-- Corrected timestamps (api/src/events/session-payload.handler.ts).
use staminads.Common.{ℕ, ◌+◌, ◌≤◌, ◌≡◌, some, arith}
use staminads.Common.Int.{pos_part, neg_part}
use staminads.Api.SessionHandler.Skew.{calculate_clock_skew, applied_skew, correct_timestamp}

-- A time that the client read no later than it sent the payload is, corrected, at most five seconds
-- after the server's receipt; and two times keep their distance.
pub correct_timestamp-bound :
    (sent_at received_at t u : ℕ)
    → t ≤ sent_at
    → u ≤ t
    → let skew = applied_skew (calculate_clock_skew (some sent_at) received_at) in
      (pos_part (correct_timestamp t skew) ≤ received_at + 5000)
      × (pos_part (correct_timestamp t skew) + neg_part (correct_timestamp u skew) + u
          ≡ pos_part (correct_timestamp u skew) + neg_part (correct_timestamp t skew) + t)
unfolding calculate_clock_skew correct_timestamp
correct_timestamp-bound sent_at received_at t u h k = ground arith
