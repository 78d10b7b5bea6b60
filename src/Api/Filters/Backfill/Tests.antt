-- ===== src/Api/Filters/Backfill/Tests.antt =====
-- Runs of a backfill (api/src/filters/backfill/backfill.processor.spec.ts), and the theorems at them.
use staminads.Common.{
  ℕ, ◌+◌, ◌*◌, String, ◌≡◌, refl, true, false, none, some, [], ◌∷◌, arith, any, leb, get_elem?,
  str_eq, if◌then◌else◌,
}
use staminads.Api.Filters.Backfill.{
  MutatedTable, Attempt, Processor, acquire_mutation_slot, mutate, chunks_from,
  generate_date_chunks, is_within_events_ttl, process_events_for_date, process_sessions_for_date,
  queue_full, process_goals_for_date, process_date_chunk, process_chunks, process_internal,
}
use staminads.Api.Filters.Backfill.Dates.{get_elem?-generate_date_chunks}
use staminads.Api.Filters.Backfill.Partitions.{count_sessions, count_sessions-process_internal}

backfill : Unit {0}
unfolding acquire_mutation_slot mutate chunks_from generate_date_chunks is_within_events_ttl
    process_events_for_date process_sessions_for_date process_goals_for_date process_date_chunk
    process_chunks process_internal
backfill = tt

-- Day 20000 is in a new month.
abbrev month : ℕ → String
month day = if leb 20000 day then "202410" else "202409"

abbrev quick : MutatedTable → ℕ → Attempt
quick table day = record {
  pre_check = 3;
  acquired = true;
  post_check = 4;
  accepted = true;
  finished = true;
  rows = 10;
}

abbrev full : MutatedTable → ℕ → Attempt
full table day = record {
  pre_check = 95;
  acquired = true;
  post_check = 4;
  accepted = true;
  finished = true;
  rows = 10;
}

abbrev noon : ℕ → ℕ
noon day = 20001 * 86400000 + 43200000

abbrev nothing : Processor
nothing = record {
  session_partitions = [];
  goal_partitions = [];
  mutations = [];
  killed = 0;
  current_date_chunk = none;
  processed_sessions = 0;
  processed_events = 0;
}

abbrev three_days : Processor
three_days = (process_internal month month quick noon (λ d. false) 3 1 20001 nothing).0

three_dates : generate_date_chunks 3 1 20001 ≡ 19999 ∷ 20000 ∷ 20001 ∷ []
unfolding backfill
three_dates = refl

-- In steps of 30 days the new month has no date.
last_month_missed :
    any (λ day. str_eq (month day) "202410") (generate_date_chunks 90 30 20010) ≡ false
unfolding backfill
last_month_missed = refl

-- With a full queue the task fails, and the mutations of the workspace are killed.
queue_is_full :
    process_internal month month full noon (λ d. false) 3 1 20001 nothing
    ≡ (record nothing { killed = 1; current_date_chunk = some 19999 }, some queue_full)
unfolding backfill
queue_is_full = refl

get_elem?-generate_date_chunks_example : get_elem? (generate_date_chunks 3 1 20001) 2 ≡ some 20001
get_elem?-generate_date_chunks_example =
    get_elem?-generate_date_chunks 3 1 20001 2 (omega arith) (omega arith)

three_days_lem :
    process_internal month month quick noon (λ d. false) 3 1 20001 nothing ≡ (three_days, none)
unfolding backfill
three_days_lem = refl

count_sessions-process_internal_example : count_sessions "202410" three_days.mutations ≡ 1
unfolding backfill
count_sessions-process_internal_example =
    count_sessions-process_internal month month quick noon "202410" 3 1 20001 nothing three_days
      refl three_days_lem
