-- ===== src/Api/Assistant/RateLimiter/Tests.antt =====
-- Runs of the rate limiter (api/src/assistant/lib/rate-limiter.ts), and its theorems at them.
use staminads.Common.{ℕ, ◌+◌, ◌*◌, ◌≡◌, ◌⊎◌, refl, List, [], ◌∷◌, arith}
use staminads.Common.Dict.{get, put}
use staminads.Api.Assistant.RateLimiter.{
  UsageStore, Limits, hour, get_usage_key, get_usage, maybe_reset_counters, allowed, hourly_limit,
  daily_limit, check_entry, check_rate_limits, update_usage, get_current_usage,
}
use staminads.Api.Assistant.RateLimiter.Retry.{check_rate_limits-retry}
use staminads.Api.Assistant.RateLimiter.Daily.{AllRefused, check_rate_limits-AllRefused}

rate_limiter : Unit {0}
unfolding get_usage_key get_usage maybe_reset_counters check_entry check_rate_limits update_usage
    get_current_usage get put
rate_limiter = tt

abbrev limits : Limits
limits = record { max_requests_per_hour = 1; max_tokens_per_day = 50 }

abbrev used : UsageStore
used = update_usage "w" "i" 80 5000 []

usage : (get_current_usage "w" "i" 6000 used).1 ≡ (1, 80)
unfolding rate_limiter
usage = refl

refused_for_an_hour : (check_rate_limits "w" "i" limits 6500 used).1 ≡ hourly_limit 3599
unfolding rate_limiter
refused_for_an_hour = refl

cleared_after_a_day : (check_rate_limits "w" "i" limits (5000 + 24 * hour) used).1 ≡ allowed
unfolding rate_limiter
cleared_after_a_day = refl

check_rate_limits-retry_example :
    ((check_rate_limits "w" "i" limits
        (6500 + 3599 * 1000)
        (check_rate_limits "w" "i" limits 6500 used).0).1
      ≡ allowed)
    ⊎ ((check_rate_limits "w" "i" limits
          (6500 + 3599 * 1000)
          (check_rate_limits "w" "i" limits 6500 used).0).1
        ≡ daily_limit)
unfolding rate_limiter
check_rate_limits-retry_example =
    check_rate_limits-retry "w" "i" limits 6500 3599 used refused_for_an_hour (omega arith)
      (omega arith)

-- Every 20 hours, for three days and more.
abbrev times : List ℕ
times = (20 * hour) ∷ (40 * hour) ∷ (60 * hour) ∷ (80 * hour) ∷ []

check_rate_limits-AllRefused_example : AllRefused "w" "i" limits times used
unfolding rate_limiter
check_rate_limits-AllRefused_example =
    check_rate_limits-AllRefused "w" "i" limits times 5000 used
      (record { requests_this_hour = 1; tokens_today = 80; last_reset = 5000 }) refl (omega arith)
      (omega arith) (omega arith)
