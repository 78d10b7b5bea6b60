-- ===== src/Api/Assistant/RateLimiter/Daily.antt =====
-- The daily token counter and the hourly resets (api/src/assistant/lib/rate-limiter.ts).
use staminads.Common.{ℕ, ◌+◌, ◌*◌, ◌≤◌, ◌<◌, String, ◌≡◌, ◌≢◌, some, List, [], ◌∷◌, arith}
use staminads.Common.Dict.{get, put, get-put_self}
use staminads.Api.Assistant.RateLimiter.{
  UsageEntry, UsageStore, Limits, hour, get_usage_key, get_usage, maybe_reset_counters, allowed,
  check_entry, check_rate_limits,
}

-- The times follow `previous` and one another by at most 23 hours.
abbrev pub IsFrequent : ℕ → List ℕ → Type 0
IsFrequent previous [] = Unit
IsFrequent previous (now ∷ rest) =
    (previous ≤ now) × (now ≤ previous + 23 * hour) × IsFrequent now rest

-- An entry after a call at `previous`: less than an hour has passed since its last reset.
abbrev pub IsFresh : ℕ → UsageEntry → Type 0
IsFresh previous entry = (entry.last_reset ≤ previous) × (previous < entry.last_reset + hour)

maybe_reset_counters-IsFresh :
    (previous now : ℕ) (entry : UsageEntry)
    → IsFresh previous entry
    → previous ≤ now
    → now ≤ previous + 23 * hour
    → IsFresh now (maybe_reset_counters now entry)
      × ((maybe_reset_counters now entry).tokens_today ≡ entry.tokens_today)
unfolding maybe_reset_counters
maybe_reset_counters-IsFresh previous now entry f h k = ground arith

check_entry-ne-allowed :
    (limits : Limits) (now : ℕ) (entry : UsageEntry)
    → limits.max_tokens_per_day ≤ entry.tokens_today
    → check_entry limits now entry ≢ allowed
unfolding check_entry
check_entry-ne-allowed limits now entry h = ground arith

module _ (workspace integration : String) (limits : Limits) where
  -- Each of the checks, made at the given times, refuses.
  abbrev pub AllRefused : List ℕ → UsageStore → Type 0
  AllRefused [] store = Unit
  AllRefused (now ∷ rest) store =
      ((check_rate_limits workspace integration limits now store).1 ≢ allowed)
      × AllRefused rest (check_rate_limits workspace integration limits now store).0

  -- Once the tokens of a day are used up, requests that come at least every 23 hours are refused for
  -- ever: the daily counter is cleared only 24 hours after the last reset, and every hourly reset
  -- counts as one.
  pub check_rate_limits-AllRefused :
      (times : List ℕ) (previous : ℕ) (store : UsageStore) (entry : UsageEntry)
      → get store (get_usage_key workspace integration) ≡ some entry
      → IsFresh previous entry
      → limits.max_tokens_per_day ≤ entry.tokens_today
      → IsFrequent previous times
      → AllRefused times store
  unfolding check_rate_limits get_usage
  check_rate_limits-AllRefused [] previous store entry e fresh used _ = tt
  check_rate_limits-AllRefused (now ∷ rest) previous store entry e fresh used (h, k, often) =
      let entry' = maybe_reset_counters now entry in
      let (fresh', same) = maybe_reset_counters-IsFresh previous now entry fresh h k in
      rw e (
        check_entry-ne-allowed limits now entry' (omega arith),
        check_rate_limits-AllRefused rest now
            (put store (get_usage_key workspace integration) entry') entry'
            (get-put_self store (get_usage_key workspace integration) entry') fresh' (omega arith)
            often,
      )
