-- ===== src/Api/Filters/Backfill.antt =====
-- api/src/filters/backfill/backfill.processor.ts: what a backfill task runs in ClickHouse. A date is
-- a number of days since 1970 in UTC, and the names of partitions are parameters. What ClickHouse
-- and the semaphore do in an attempt of a mutation is an input; the queries that count rows and the
-- writes of the task's progress are taken not to fail.
pub mod Dates
pub mod Partitions
mod Tests
use Prim.Native.String
use staminads.Common.{
  ℕ, zero, suc, ◌+◌, ◌-◌, ◌*◌, String, Bool, true, false, ◌||◌, Option, none, some, List, [], ◌∷◌,
  ◌++◌, leb, str_eq, if◌then◌else◌,
}
use staminads.Common.Texts.{trim}
use staminads.Api.Filters.Evaluator.{
  FilterOperator, regex, FilterAction, unset_value, FilterCondition, FilterOperation,
  FilterDefinition, includes, or_empty,
}
use staminads.Api.Filters.Compiler.{is_in}

abbrev pub events_ttl_days : ℕ
events_ttl_days = 7

abbrev pub clickhouse_hard_limit : ℕ
clickhouse_hard_limit = 95

-- `/\(\?[=!<]/.test(pattern)`
unfoldable pub has_unsupported_re2_features : String → Bool
has_unsupported_re2_features pattern =
    includes pattern "(?=" || (includes pattern "(?!" || includes pattern "(?<")

-- The kinds of messages of validateFiltersForBackfill.
pub data ValidationError : Type 0 where
  empty_field invalid_regex unsupported_regex empty_dimension missing_value : ValidationError

abbrev pub error_if : Bool → ValidationError → List ValidationError
error_if b e = if b then e ∷ [] else []

abbrev pub is_empty_name : String → Bool
is_empty_name s = str_eq (trim s) ""

module _ (compiles : String → Bool) where
  abbrev regex_errors : FilterOperator → String → List ValidationError
  regex_errors regex pattern =
      error_if (if compiles pattern then false else true) invalid_regex
      ++ error_if (has_unsupported_re2_features pattern) unsupported_regex
  regex_errors _ pattern = []

  abbrev pub condition_errors : FilterCondition → List ValidationError
  condition_errors c =
      error_if (is_empty_name c.field) empty_field ++ regex_errors c.operator (or_empty c.value)

  abbrev value_errors : FilterAction → Option String → List ValidationError
  value_errors unset_value value = []
  value_errors _ none = missing_value ∷ []
  value_errors _ (some v) = []

  abbrev pub operation_errors : FilterOperation → List ValidationError
  operation_errors op =
      error_if (is_empty_name op.dimension) empty_dimension ++ value_errors op.action op.value

  abbrev conditions_errors : List FilterCondition → List ValidationError
  conditions_errors [] = []
  conditions_errors (c ∷ rest) = condition_errors c ++ conditions_errors rest

  abbrev operations_errors : List FilterOperation → List ValidationError
  operations_errors [] = []
  operations_errors (op ∷ rest) = operation_errors op ++ operations_errors rest

  -- It throws when there is an error.
  unfoldable pub validate_filters_for_backfill : List FilterDefinition → List ValidationError
  validate_filters_for_backfill [] = []
  validate_filters_for_backfill (f ∷ rest) =
      let others = validate_filters_for_backfill rest in
      if f.enabled
      then conditions_errors f.conditions ++ operations_errors f.operations ++ others
      else others

-- The `while` loop, for so many rounds; a step of 0 would never end.
unfoldable pub chunks_from : ℕ → ℕ → ℕ → ℕ → List ℕ
chunks_from zero current step last = []
chunks_from (suc rounds) current step last =
    let rest = chunks_from rounds (current + step) step last in
    if leb current last then current ∷ rest else []

-- From the first day of the lookback on; there are no more rounds than days, for a step of 1 or more.
unfoldable pub generate_date_chunks : ℕ → ℕ → ℕ → List ℕ
generate_date_chunks lookback_days chunk_size_days end_day =
    chunks_from (suc lookback_days) (end_day + 1 - lookback_days) chunk_size_days end_day

abbrev day_ms : ℕ
day_ms = 86400000

-- `now` in milliseconds.
unfoldable pub is_within_events_ttl : ℕ → ℕ → Bool
is_within_events_ttl now day = leb now ((day + events_ttl_days) * day_ms)

pub data MutatedTable : Type 0 where
  events sessions goals : MutatedTable

-- What happens in one attempt of a mutation: the two counts of running mutations, whether the
-- semaphore is acquired in time, whether ClickHouse takes the command, whether the mutation is done
-- in time, and the count of rows afterwards.
pub record Attempt : Type 0 where
  pub pre_check : ℕ
  pub acquired : Bool
  pub post_check : ℕ
  pub accepted : Bool
  pub finished : Bool
  pub rows : ℕ

pub data BackfillError : Type 0 where
  queue_full slot_timeout refused mutation_timeout : BackfillError

unfoldable pub acquire_mutation_slot : Attempt → Option BackfillError
acquire_mutation_slot a =
    if leb clickhouse_hard_limit a.pre_check
    then some queue_full
    else if a.acquired
    then (if leb clickhouse_hard_limit a.post_check then some queue_full else none)
    else some slot_timeout

pub record Mutation : Type 0 where
  pub table : MutatedTable
  pub partition : String

-- The processor with the task's progress, the mutations that ClickHouse has taken and how often the
-- mutations of the workspace were killed.
pub record Processor : Type 0 where
  pub session_partitions : List String
  pub goal_partitions : List String
  pub mutations : List Mutation
  pub killed : ℕ
  pub current_date_chunk : Option ℕ
  pub processed_sessions : ℕ
  pub processed_events : ℕ

abbrev pub Run : Type 0
Run = Processor × Option BackfillError

-- An `await` that may throw, and what comes after it.
abbrev pub and_then : Run → (Processor → Run) → Run
and_then (p, none) f = f p
and_then (p, some e) f = (p, some e)

abbrev pub kill_workspace_mutations : Processor → Processor
kill_workspace_mutations p = record p { killed = suc p.killed }

abbrev wait_for_mutations : Bool → Processor → Run
wait_for_mutations finished p =
    if finished then (p, none) else (kill_workspace_mutations p, some mutation_timeout)

abbrev command : MutatedTable → String → Attempt → Processor → Run
command table partition a p =
    if a.accepted
    then wait_for_mutations a.finished
        (record p { mutations = record { table = table; partition = partition } ∷ p.mutations })
    else (p, some refused)

abbrev after_slot : Option BackfillError → MutatedTable → String → Attempt → Processor → Run
after_slot none table partition a p = command table partition a p
after_slot (some e) table partition a p = (p, some e)

-- acquireMutationSlot, the command and waitForMutations.
unfoldable pub mutate : MutatedTable → String → Attempt → Processor → Run
mutate table partition a p = after_slot (acquire_mutation_slot a) table partition a p

module _ (month_name day_name : ℕ → String) (attempt : MutatedTable → ℕ → Attempt) (now : ℕ → ℕ)
    (cancelled : ℕ → Bool) where
  -- The number of events is read after the mutation.
  unfoldable pub process_events_for_date : ℕ → Processor → Run
  process_events_for_date day p = mutate events (day_name day) (attempt events day) p

  abbrev pub mark_session : String → Processor → Run
  mark_session partition p =
      (record p { session_partitions = partition ∷ p.session_partitions }, none)

  abbrev pub mark_goal : String → Processor → Run
  mark_goal partition p = (record p { goal_partitions = partition ∷ p.goal_partitions }, none)

  unfoldable pub process_sessions_for_date : ℕ → Processor → Run
  process_sessions_for_date day p =
      if is_in p.session_partitions (month_name day)
      then (p, none)
      else and_then (mutate sessions (month_name day) (attempt sessions day) p)
          (mark_session (month_name day))

  unfoldable pub process_goals_for_date : ℕ → Processor → Run
  process_goals_for_date day p =
      if is_in p.goal_partitions (month_name day)
      then (p, none)
      else and_then (mutate goals (month_name day) (attempt goals day) p)
          (mark_goal (month_name day))

  abbrev pub add_counts : ℕ → Processor → Run
  add_counts day p = (
    record p {
      processed_sessions = p.processed_sessions + (attempt sessions day).rows;
      processed_events =
          if is_within_events_ttl (now day) day
          then p.processed_events + (attempt events day).rows
          else p.processed_events;
    },
    none,
  )

  abbrev pub events_within_ttl : ℕ → Processor → Run
  events_within_ttl day p =
      if is_within_events_ttl (now day) day then process_events_for_date day p else (p, none)

  unfoldable pub process_date_chunk : ℕ → Processor → Run
  process_date_chunk day p =
      and_then
        (and_then
          (and_then (events_within_ttl day (record p { current_date_chunk = some day }))
            (process_sessions_for_date day))
          (process_goals_for_date day))
        (add_counts day)

  -- The loop over the chunks, which a cancelled processor leaves.
  unfoldable pub process_chunks : List ℕ → Processor → Run
  process_chunks [] p = (p, none)
  process_chunks (day ∷ rest) p =
      if cancelled day then (p, none) else and_then (process_date_chunk day p) (process_chunks rest)

  abbrev kill_on_error : Run → Run
  kill_on_error (p, none) = (p, none)
  kill_on_error (p, some e) = (kill_workspace_mutations p, some e)

  -- processInternal from the reset of the partitions on.
  unfoldable pub process_internal : ℕ → ℕ → ℕ → Processor → Run
  process_internal lookback_days chunk_size_days end_day p = kill_on_error (
      process_chunks (generate_date_chunks lookback_days chunk_size_days end_day)
        (record p { session_partitions = []; goal_partitions = [] }))
