-- ===== src/Api/SessionHandler/Skew.antt =====
-- The clock of the client against that of the server (calculateClockSkew and correctTimestamp of
-- api/src/events/session-payload.handler.ts).
pub mod Corrected
use staminads.Common.{
  ℕ, ◌+◌, ◌-◌, Bool, true, false, ◌||◌, Option, none, some, ltb, leb, if◌then◌else◌,
}
use staminads.Common.Int.{ℤ, pos, negsuc, ◌-ℤ◌, ◌+ℤ◌}

abbrev pub clock_skew_threshold_ms : ℕ
clock_skew_threshold_ms = 5000

pub record ClockSkew : Type 0 where
  pub skew_ms : ℤ
  pub needs_correction : Bool

-- `skewMs < -CLOCK_SKEW_THRESHOLD_MS`, `skewMs > CLOCK_SKEW_THRESHOLD_MS`
abbrev pub is_beyond : ℤ → Bool
is_beyond (pos n) = ltb clock_skew_threshold_ms n
is_beyond (negsuc n) = leb clock_skew_threshold_ms n

unfoldable pub calculate_clock_skew : Option ℕ → ℕ → ClockSkew
calculate_clock_skew none received_at_ms = record { skew_ms = pos 0; needs_correction = false }
calculate_clock_skew (some sent_at) received_at_ms =
    let skew = received_at_ms -ℤ sent_at in
    record { skew_ms = skew; needs_correction = is_beyond skew }

-- `needsCorrection ? skewMs : 0`
abbrev pub applied_skew : ClockSkew → ℤ
applied_skew s = if s.needs_correction then s.skew_ms else pos 0

-- `skewMs ? this.correctTimestamp(timestamp, skewMs) : timestamp`; a skew of 0 changes nothing.
unfoldable pub correct_timestamp : ℕ → ℤ → ℤ
correct_timestamp timestamp_ms skew_ms = timestamp_ms +ℤ skew_ms
