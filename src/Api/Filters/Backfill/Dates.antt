-- ===== src/Api/Filters/Backfill/Dates.antt =====
-- The dates that a backfill goes through (api/src/filters/backfill/backfill.processor.ts).
use staminads.Common.{
  ℕ, zero, suc, ◌+◌, ◌-◌, ◌*◌, ◌≤◌, ◌<◌, ◌≡◌, refl, ap, ◌∙◌, true, false, none, some, arith, leb,
  get_elem?, if◌then◌else◌, Bool-cases, inl, inr,
}
use staminads.Api.Filters.Backfill.{chunks_from, generate_date_chunks}

if_leb :
    (a b c : ℕ) → a ≡ b → (if leb a c then some a else none) ≡ (if leb b c then some b else none)
if_leb a b c e = ap (λ x. if leb x c then some x else none) e

inside_day : (a c : ℕ) → leb a c ≡ true → some a ≡ (if leb a c then some a else none)
inside_day a c h = rw h refl

late :
    (a extra c : ℕ)
    → leb a c ≡ false
    → none ≡ (if leb (a + extra) c then some (a + extra) else none)
late a extra c h = ground arith

get_elem?-chunks_from :
    (rounds current step last k : ℕ)
    → 1 ≤ step
    → last < current + rounds
    → get_elem? (chunks_from rounds current step last) k
      ≡ (if leb (current + k * step) last then some (current + k * step) else none)
unfolding chunks_from
get_elem?-chunks_from zero current step last k s h = ground arith
get_elem?-chunks_from (suc rounds) current step last zero s h =
    elim (Bool-cases (leb current last)) [
      | inr over ↦ rw over (late current (zero * step) last over)
      | inl inside ↦ rw inside (
          inside_day current last inside
          ∙ if_leb current (current + zero * step) last (omega arith))
    ]
get_elem?-chunks_from (suc rounds) current step last (suc k) s h =
    elim (Bool-cases (leb current last)) [
      | inr over ↦ rw over (late current (suc k * step) last over)
      | inl inside ↦ rw inside (
          get_elem?-chunks_from rounds (current + step) step last k s (omega arith)
          ∙ if_leb (current + step + k * step) (current + suc k * step) last (omega arith))
    ]

-- The k-th date of a backfill, in steps of at least one day and with a lookback that does not reach
-- 1970, is k steps after the first day of the lookback, as long as that is no later than the last
-- day; there are no others, so that steps of one day are all days of the lookback.
pub get_elem?-generate_date_chunks :
    (lookback_days chunk_size_days end_day k : ℕ)
    → 1 ≤ chunk_size_days
    → lookback_days ≤ end_day
    → let day = end_day + 1 - lookback_days + k * chunk_size_days in
      get_elem? (generate_date_chunks lookback_days chunk_size_days end_day) k
      ≡ (if leb day end_day then some day else none)
unfolding generate_date_chunks
get_elem?-generate_date_chunks lookback_days chunk_size_days end_day k s h =
    get_elem?-chunks_from (suc lookback_days) (end_day + 1 - lookback_days) chunk_size_days end_day
      k s (omega arith)
