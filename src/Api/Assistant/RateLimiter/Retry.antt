-- ===== src/Api/Assistant/RateLimiter/Retry.antt =====
-- The waiting time of the hourly limit (api/src/assistant/lib/rate-limiter.ts).
use staminads.Common.{ℕ, ◌+◌, ◌*◌, ◌≤◌, ◌<◌, String, ◌≡◌, ◌⊎◌, ap, arith}
use staminads.Common.Dict.{put, get-put_self}
use staminads.Api.Assistant.RateLimiter.{
  UsageEntry, UsageStore, Limits, get_usage_key, entry_or_new, get_usage, maybe_reset_counters,
  allowed, hourly_limit, daily_limit, check_entry, check_rate_limits, current_entry,
  seconds_until_reset,
}

-- After the waiting time the hourly counter is cleared.
requests-maybe_reset_counters :
    (entry : UsageEntry) (now s : ℕ)
    → seconds_until_reset now entry ≤ s
    → entry.last_reset ≤ now
    → (maybe_reset_counters (now + s * 1000) entry).requests_this_hour ≡ 0
unfolding maybe_reset_counters
requests-maybe_reset_counters entry now s h k = ground arith

check_entry-hourly :
    (limits : Limits) (now : ℕ) (entry : UsageEntry) (s : ℕ)
    → check_entry limits now entry ≡ hourly_limit s
    → s ≡ seconds_until_reset now entry
unfolding check_entry
check_entry-hourly limits now entry s h = ground arith

check_entry-not_hourly :
    (limits : Limits) (now : ℕ) (entry : UsageEntry)
    → 0 < limits.max_requests_per_hour
    → entry.requests_this_hour ≡ 0
    → (check_entry limits now entry ≡ allowed) ⊎ (check_entry limits now entry ≡ daily_limit)
unfolding check_entry
check_entry-not_hourly limits now entry h k = ground arith

last_reset-maybe_reset_counters :
    (now : ℕ) (entry : UsageEntry)
    → entry.last_reset ≤ now
    → (maybe_reset_counters now entry).last_reset ≤ now
unfolding maybe_reset_counters
last_reset-maybe_reset_counters now entry h = ground arith

module _ (workspace integration : String) where
  -- A call finds the entry that the last call has saved.
  pub get_usage-save :
      (now : ℕ) (entry : UsageEntry) (store : UsageStore)
      → get_usage workspace integration now (put store (get_usage_key workspace integration) entry)
        ≡ entry
  unfolding get_usage
  get_usage-save now entry store =
      ap (entry_or_new now) (get-put_self store (get_usage_key workspace integration) entry)

  -- A request that the hourly limit refuses with a waiting time is not refused by the hourly limit
  -- when that many seconds have passed and no other call came between: it is allowed, or the
  -- daily limit refuses it. The limit must not be zero, nor the clock be behind the last reset.
  pub check_rate_limits-retry :
      (limits : Limits) (now s : ℕ) (store : UsageStore)
      → (check_rate_limits workspace integration limits now store).1 ≡ hourly_limit s
      → 0 < limits.max_requests_per_hour
      → (get_usage workspace integration now store).last_reset ≤ now
      → let later =
          check_rate_limits workspace integration limits
            (now + s * 1000)
            (check_rate_limits workspace integration limits now store).0 in
        (later.1 ≡ allowed) ⊎ (later.1 ≡ daily_limit)
  unfolding check_rate_limits
  check_rate_limits-retry limits now s store refused some_allowed clock =
      let entry = current_entry workspace integration now store in
      let seconds = check_entry-hourly limits now entry s refused in
      rw (get_usage-save (now + s * 1000) entry store) (
        check_entry-not_hourly limits (now + s * 1000) (maybe_reset_counters (now + s * 1000) entry)
          some_allowed
          (requests-maybe_reset_counters entry now s (omega arith) (
            last_reset-maybe_reset_counters now (get_usage workspace integration now store) clock)))
