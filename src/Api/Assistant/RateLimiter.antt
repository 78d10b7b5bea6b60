-- ===== src/Api/Assistant/RateLimiter.antt =====
-- api/src/assistant/lib/rate-limiter.ts: the usage counters of an integration, kept in memory.
-- Times are milliseconds; a call reads the clock once. The hours of the source are compared in
-- milliseconds, where its division is exact.
pub mod Retry
pub mod Daily
mod Tests
use Prim.Native.String
use staminads.Common.{ℕ, ◌+◌, ◌-◌, ◌*◌, ◌/◌, String, Bool, Option, none, some, leb, if◌then◌else◌}
use staminads.Common.Dict.{Dict, get, put}

pub record UsageEntry : Type 0 where
  pub requests_this_hour : ℕ
  pub tokens_today : ℕ
  pub last_reset : ℕ

-- `usageStore`
abbrev pub UsageStore : Type 0
UsageStore = Dict UsageEntry

-- `integration.limits`
pub record Limits : Type 0 where
  pub max_requests_per_hour : ℕ
  pub max_tokens_per_day : ℕ

abbrev pub hour : ℕ
hour = 1000 * 60 * 60

unfoldable pub get_usage_key : String → String → String
get_usage_key workspace integration = String.◌++◌ workspace (String.◌++◌ ":" integration)

abbrev pub new_entry : ℕ → UsageEntry
new_entry now = record { requests_this_hour = 0; tokens_today = 0; last_reset = now }

abbrev pub entry_or_new : ℕ → Option UsageEntry → UsageEntry
entry_or_new now none = new_entry now
entry_or_new now (some entry) = entry

unfoldable pub get_usage : String → String → ℕ → UsageStore → UsageEntry
get_usage workspace integration now store =
    entry_or_new now (get store (get_usage_key workspace integration))

unfoldable pub maybe_reset_counters : ℕ → UsageEntry → UsageEntry
maybe_reset_counters now entry =
    let elapsed = now - entry.last_reset in
    if leb (24 * hour) elapsed
    then record { requests_this_hour = 0; tokens_today = 0; last_reset = now }
    else if leb hour elapsed
    then record entry { requests_this_hour = 0; last_reset = now }
    else entry

-- The entry of a call, up to date, which the store holds from then on.
abbrev pub current_entry : String → String → ℕ → UsageStore → UsageEntry
current_entry workspace integration now store =
    maybe_reset_counters now (get_usage workspace integration now store)

abbrev pub save : String → String → UsageEntry → UsageStore → UsageStore
save workspace integration entry store = put store (get_usage_key workspace integration) entry

-- What `checkRateLimits` throws, or nothing; the number is `retry_after`.
pub data Outcome : Type 0 where
  allowed : Outcome
  hourly_limit : ℕ → Outcome
  daily_limit : Outcome

-- `Math.ceil((1 - hoursSinceReset) * 3600)`
abbrev pub seconds_until_reset : ℕ → UsageEntry → ℕ
seconds_until_reset now entry = (hour - (now - entry.last_reset) + 999) / 1000

unfoldable pub check_entry : Limits → ℕ → UsageEntry → Outcome
check_entry limits now entry =
    if leb limits.max_requests_per_hour entry.requests_this_hour
    then hourly_limit (seconds_until_reset now entry)
    else if leb limits.max_tokens_per_day entry.tokens_today
    then daily_limit
    else allowed

unfoldable pub check_rate_limits : String → String → Limits → ℕ → UsageStore → UsageStore × Outcome
check_rate_limits workspace integration limits now store =
    let entry = current_entry workspace integration now store in
    (save workspace integration entry store, check_entry limits now entry)

unfoldable pub update_usage : String → String → ℕ → ℕ → UsageStore → UsageStore
update_usage workspace integration tokens_used now store =
    let entry = current_entry workspace integration now store in
    save workspace integration
      (record entry {
        requests_this_hour = entry.requests_this_hour + 1;
        tokens_today = entry.tokens_today + tokens_used;
      })
      store

unfoldable pub get_current_usage : String → String → ℕ → UsageStore → UsageStore × (ℕ × ℕ)
get_current_usage workspace integration now store =
    let entry = current_entry workspace integration now store in
    (save workspace integration entry store, (entry.requests_this_hour, entry.tokens_today))
