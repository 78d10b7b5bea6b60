-- ===== src/Api/Filters/Backfill/Partitions.antt =====
-- Which mutations a backfill makes (api/src/filters/backfill/backfill.processor.ts).
use staminads.Common.{
  ℕ, suc, String, ◌≡◌, refl, ap, ◌∙◌, Bool, true, false, ◌||◌, Option, none, some, List, [], ◌∷◌,
  arith, any, str_eq, eq_iff, if◌then◌else◌, Bool-cases, inl, inr,
}
use staminads.Api.Filters.Compiler.{is_in}
use staminads.Api.Filters.Backfill.{
  MutatedTable, events, sessions, goals, Attempt, BackfillError, Mutation, Processor, Run, and_then,
  mutate, after_slot, command, wait_for_mutations, acquire_mutation_slot, process_events_for_date,
  process_sessions_for_date, mark_session, mark_goal, add_counts, events_within_ttl,
  process_goals_for_date, process_date_chunk, is_within_events_ttl, process_chunks,
  process_internal, generate_date_chunks, kill_on_error,
}

abbrev is_sessions : MutatedTable → Bool
is_sessions sessions = true
is_sessions _ = false

-- How many mutations of the sessions of one partition there are.
unfoldable pub count_sessions : String → List Mutation → ℕ
count_sessions x [] = 0
count_sessions x (m ∷ rest) =
    let others = count_sessions x rest in
    if is_sessions m.table then (if str_eq m.partition x then suc others else others) else others

abbrev one_if : Bool → ℕ
one_if b = if b then 1 else 0

abbrev IsExact : String → Processor → Type 0
IsExact x p = count_sessions x p.mutations ≡ one_if (is_in p.session_partitions x)

-- From `p` to `q` the partition `x` of the sessions is done if it is hit.
record Advances (x : String) (hit : Bool) (p q : Processor) : Type 0 where
  exact : IsExact x q
  marked : is_in q.session_partitions x ≡ (hit || is_in p.session_partitions x)

and_then_ok :
    (o : Run) (f : Processor → Run) (q : Processor)
    → and_then o f ≡ (q, none)
    → (r : Processor) × ((o ≡ (r, none)) × (f r ≡ (q, none)))
and_then_ok (r, none) f q h = (r, (refl, h))
and_then_ok (r, some e) f q h = absurd (ground (arith, ap (λ o. o.1) h))

abbrev adding : MutatedTable → String → Processor → Processor
adding table partition p = record p {
  mutations = record { table = table; partition = partition } ∷ p.mutations;
}

wait_ok : (b : Bool) (p q : Processor) → wait_for_mutations b p ≡ (q, none) → p ≡ q
wait_ok true p q h = ap (λ o. o.0) h
wait_ok false p q h = absurd (ground (arith, ap (λ o. o.1) h))

command_ok :
    (table : MutatedTable) (partition : String) (a : Attempt) (p q : Processor)
    → command table partition a p ≡ (q, none)
    → adding table partition p ≡ q
command_ok table partition a p q h = elim (Bool-cases a.accepted) [
  | inl taken ↦ wait_ok a.finished _ q (rw taken at h)
  | inr not_taken ↦ absurd (ground (arith, ap (λ o. o.1) (rw not_taken at h)))
]

after_slot_ok :
    (o : Option BackfillError) (table : MutatedTable) (partition : String) (a : Attempt)
    (p q : Processor)
    → after_slot o table partition a p ≡ (q, none)
    → adding table partition p ≡ q
after_slot_ok none table partition a p q h = command_ok table partition a p q h
after_slot_ok (some e) table partition a p q h = absurd (ground (arith, ap (λ o. o.1) h))

mutate_ok :
    (table : MutatedTable) (partition : String) (a : Attempt) (p q : Processor)
    → mutate table partition a p ≡ (q, none)
    → adding table partition p ≡ q
unfolding mutate
mutate_ok table partition a p q h = after_slot_ok (acquire_mutation_slot a) table partition a p q h

or_none : (b : Bool) → (b || false) ≡ b
or_none true = refl
or_none false = refl

or_swap : (a b c : Bool) → (b || (a || c)) ≡ ((a || b) || c)
or_swap true true c = refl
or_swap true false c = refl
or_swap false b c = refl

known_already :
    (set : List String) (month x : String)
    → is_in set month ≡ true
    → is_in set x ≡ (str_eq month x || is_in set x)
known_already set month x h = elim (Bool-cases (str_eq month x)) [
  | inl same ↦ let e : month ≡ x = (eq_iff month x).0 same in rw same (rw e at h)
  | inr other ↦ rw other refl
]

count_new :
    (set : List String) (month x : String) (n : ℕ)
    → is_in set month ≡ false
    → n ≡ one_if (is_in set x)
    → (if str_eq month x then suc n else n) ≡ one_if (str_eq month x || is_in set x)
count_new set month x n h k = elim (Bool-cases (str_eq month x)) [
  | inl same ↦
      let e : month ≡ x = (eq_iff month x).0 same in rw same (ap suc (k ∙ ap one_if (rw e at h)))
  | inr other ↦ rw other k
]

module _ (month_name day_name : ℕ → String) (attempt : MutatedTable → ℕ → Attempt) (now : ℕ → ℕ)
    (x : String) where
  kill_on_error_ok :
      (o : Run) (q : Processor)
      → kill_on_error month_name day_name attempt now (λ d. false) o ≡ (q, none)
      → o ≡ (q, none)
  kill_on_error_ok (p, none) q h = h
  kill_on_error_ok (p, some e) q h = absurd (ground (arith, ap (λ r. r.1) h))

  process_events_lem :
      (day : ℕ) (p q : Processor)
      → IsExact x p
      → process_events_for_date month_name day_name attempt now (λ d. false) day p ≡ (q, none)
      → Advances x false p q
  unfolding process_events_for_date count_sessions
  process_events_lem day p q exact h =
      rw (← mutate_ok events (day_name day) _ p q h) (record { exact = exact; marked = refl })

  events_within_ttl_lem :
      (day : ℕ) (p q : Processor)
      → IsExact x p
      → events_within_ttl month_name day_name attempt now (λ d. false) day p ≡ (q, none)
      → Advances x false p q
  events_within_ttl_lem day p q exact h = elim (Bool-cases (is_within_events_ttl (now day) day)) [
    | inl recent ↦ process_events_lem day p q exact (rw recent at h)
    | inr old ↦ rw (← ap (λ o. o.0) (rw old at h)) (record { exact = exact; marked = refl })
  ]

  process_sessions_lem :
      (day : ℕ) (p q : Processor)
      → IsExact x p
      → process_sessions_for_date month_name day_name attempt now (λ d. false) day p ≡ (q, none)
      → Advances x (str_eq (month_name day) x) p q
  unfolding process_sessions_for_date count_sessions
  process_sessions_lem day p q exact h =
      elim (Bool-cases (is_in p.session_partitions (month_name day))) [
        | inl known ↦
            let same : p ≡ q = ap (λ o. o.0) (rw (known, process_sessions_for_date) at h) in
            rw (← same) (record {
              exact = exact;
              marked = known_already p.session_partitions (month_name day) x known;
            })
        | inr new ↦
            let (r, (h1, h2)) = and_then_ok _ _ q (rw (new, process_sessions_for_date) at h) in
            let added = mutate_ok sessions (month_name day) _ p r h1 in
            let done =
              ap (mark_session month_name day_name attempt now (λ d. false) (month_name day)) added
              ∙ h2 in
            rw (← ap (λ o. o.0) done) (record {
              exact = count_new p.session_partitions (month_name day) x _ new exact;
              marked = refl;
            })
      ]

  process_goals_lem :
      (day : ℕ) (p q : Processor)
      → IsExact x p
      → process_goals_for_date month_name day_name attempt now (λ d. false) day p ≡ (q, none)
      → Advances x false p q
  unfolding process_goals_for_date count_sessions
  process_goals_lem day p q exact h = elim (Bool-cases (is_in p.goal_partitions (month_name day))) [
    | inl known ↦
        let same : p ≡ q = ap (λ o. o.0) (rw (known, process_goals_for_date) at h) in
        rw (← same) (record { exact = exact; marked = refl })
    | inr new ↦
        let (r, (h1, h2)) = and_then_ok _ _ q (rw (new, process_goals_for_date) at h) in
        let added = mutate_ok goals (month_name day) _ p r h1 in
        let done =
          ap (mark_goal month_name day_name attempt now (λ d. false) (month_name day)) added ∙ h2 in
        rw (← ap (λ o. o.0) done) (record { exact = exact; marked = refl })
  ]

  process_date_chunk_lem :
      (day : ℕ) (p q : Processor)
      → IsExact x p
      → process_date_chunk month_name day_name attempt now (λ d. false) day p ≡ (q, none)
      → Advances x (str_eq (month_name day) x) p q
  unfolding process_date_chunk
  process_date_chunk_lem day p q exact h =
      let started = record p { current_date_chunk = some day } in
      let one = events_within_ttl month_name day_name attempt now (λ d. false) day started in
      let two =
        and_then one (process_sessions_for_date month_name day_name attempt now (λ d. false) day) in
      let three =
        and_then two (process_goals_for_date month_name day_name attempt now (λ d. false) day) in
      let (r3, (h1, h2)) =
        and_then_ok three (add_counts month_name day_name attempt now (λ d. false) day) q h in
      let (r2, (h3, h4)) =
        and_then_ok two (process_goals_for_date month_name day_name attempt now (λ d. false) day) r3
          h1 in
      let (r1, (h5, h6)) =
        and_then_ok one (process_sessions_for_date month_name day_name attempt now (λ d. false) day)
          r2 h3 in
      let after_events : Advances x false p r1 =
        let a = events_within_ttl_lem day started r1 exact h5 in
        record { exact = a.exact; marked = a.marked } in
      let after_sessions = process_sessions_lem day r1 r2 after_events.exact h6 in
      let after_goals = process_goals_lem day r2 r3 after_sessions.exact h4 in
      rw (← ap (λ o. o.0) h2) (record {
        exact = after_goals.exact;
        marked =
            after_goals.marked
            ∙ after_sessions.marked
            ∙ ap (λ b. str_eq (month_name day) x || b) after_events.marked;
      })

  process_chunks_lem :
      (days : List ℕ) (p q : Processor)
      → IsExact x p
      → process_chunks month_name day_name attempt now (λ d. false) days p ≡ (q, none)
      → Advances x (any (λ day. str_eq (month_name day) x) days) p q
  unfolding process_chunks
  process_chunks_lem [] p q exact h =
      rw (← ap (λ o. o.0) h) (record { exact = exact; marked = refl })
  process_chunks_lem (day ∷ rest) p q exact h =
      let (r, (h1, h2)) =
        and_then_ok (process_date_chunk month_name day_name attempt now (λ d. false) day p)
          (process_chunks month_name day_name attempt now (λ d. false) rest) q h in
      let first = process_date_chunk_lem day p r exact h1 in
      let others = process_chunks_lem rest r q first.exact h2 in
      record {
        exact = others.exact;
        marked = others.marked ∙ rw first.marked (or_swap (str_eq (month_name day) x) _ _);
      }

  -- A backfill that is not cancelled and ends without an error, of a processor that has made no
  -- mutation yet, makes exactly one mutation of the sessions of each month that one of its dates
  -- is in, and none of another month.
  pub count_sessions-process_internal :
      (lookback_days chunk_size_days end_day : ℕ) (p q : Processor)
      → p.mutations ≡ []
      → process_internal month_name day_name attempt now
          (λ d. false)
          lookback_days
          chunk_size_days
          end_day
          p
        ≡ (q, none)
      → count_sessions x q.mutations ≡ (
          if any
            (λ day. str_eq (month_name day) x)
            (generate_date_chunks lookback_days chunk_size_days end_day)
          then 1
          else 0)
  unfolding process_internal count_sessions
  count_sessions-process_internal lookback_days chunk_size_days end_day p q empty h =
      let days = generate_date_chunks lookback_days chunk_size_days end_day in
      let started = record p { session_partitions = []; goal_partitions = [] } in
      let ok =
        kill_on_error_ok (process_chunks month_name day_name attempt now (λ d. false) days started)
          q h in
      let done = process_chunks_lem days started q (ap (count_sessions x) empty) ok in
      done.exact ∙ ap one_if (done.marked ∙ or_none (any (λ day. str_eq (month_name day) x) days))
