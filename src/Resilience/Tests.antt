-- ===== src/Resilience/Tests.antt =====
-- The theorems about internal/resilience at concrete inputs.
use llm2api.Prelude.{
  ℕ, ◌+◌, ◌-◌, ◌≤◌, ◌<◌, ◌≡◌, refl, inl, inr, true, false, none, some, ℤ, pos, negsuc, arith, List,
  [], ◌∷◌,
}
use llm2api.Resilience.Errors.{ok}
use llm2api.Resilience.Backoff.{
  BackoffInput, BackoffConfig, Random, validate, grow, next_base, backoff_delay,
}
use llm2api.Resilience.Backoff.Ideal.{ideal, grow-ideal}
use llm2api.Resilience.Backoff.Delay.{base_of, spread_of, backoff_delay_bounds, backoff_delay_total}
use llm2api.Resilience.Retry.{
  FailureClass, SendBoundary, ClientBoundary, RetryInput, schedule, RetryConfig, RetryPolicy,
  new_retry_policy, validate_retry_input, schedule_within, combined_delay, decide,
}
use llm2api.Resilience.Retry.Schedule.{IsScheduled, Honours, decide-IsScheduled, decide-Honours}
use llm2api.Resilience.Retry.Policy.{
  Answers, retries_bounded, decide_total, IsRetryable, decide_schedules,
}
use llm2api.Resilience.Circuit.{
  Circuit, CircuitInput, CircuitConfig, CircuitState, closed, opened, half_open, Permit, succeeded,
  failed, new_circuit, acquire, wake, admit, settle, complete,
}
use llm2api.Resilience.Circuit.Machine.{Call, acquires, completes, step, run, live}
use llm2api.Resilience.Circuit.Invariant.{run_counts}
use llm2api.Resilience.Circuit.Behaviour.{
  attempt, attempts, failures_trip, opened_acquire, complete_twice, probes_recover,
}

-- One second, doubling, up to ten seconds, with a jitter of a tenth.
abbrev backoff_input : BackoffInput
backoff_input = record {
  initial = pos 1000;
  maximum = pos 10000;
  multiplier_numerator = pos 2;
  multiplier_denominator = pos 1;
  jitter_permille = pos 100;
}

abbrev backoff_config : BackoffConfig
backoff_config = record {
  initial = 1000;
  maximum = 10000;
  multiplier_numerator = 2;
  multiplier_denominator = 1;
  jitter_permille = 100;
}

abbrev first : Random
first width = pos 0

backoff_valid : validate backoff_input (some first) ≡ ok backoff_config
unfolding validate
backoff_valid = refl

grow-ideal_example : grow backoff_config 5 1000 ≡ ideal backoff_config 5 1000
grow-ideal_example = grow-ideal backoff_config (omega arith) 5 1000 (omega arith)

third_delay : backoff_delay backoff_config 3 (some first) ≡ ok 3600
unfolding backoff_delay grow next_base
third_delay = refl

backoff_delay_bounds_example :
    let base = base_of backoff_config 3 in
    (base - spread_of backoff_config base ≤ 3600)
    × (3600 ≤ base + spread_of backoff_config base)
    × (3600 ≤ 10000)
backoff_delay_bounds_example =
    backoff_delay_bounds backoff_input (some first) 3 backoff_valid third_delay

first_in_range :
    (r : Random)
    → some first ≡ some r
    → (width : ℕ) → 0 < width
    → (offset : ℕ) × (r width ≡ pos offset) × (offset < width)
first_in_range r e width h = (0, ground arith, h)

backoff_delay_total_example : (d : ℕ) × (backoff_delay backoff_config 7 (some first) ≡ ok d)
backoff_delay_total_example =
    backoff_delay_total backoff_input (some first) 7 backoff_valid first_in_range

abbrev retry_config : RetryConfig
retry_config = record { max_attempts = pos 3; max_elapsed = pos 60000; backoff = backoff_input }

abbrev policy : RetryPolicy
policy = record {
  max_attempts = 3;
  max_elapsed = 60000;
  backoff = backoff_config;
  random = some first;
}

policy_made : new_retry_policy retry_config true (some first) ≡ ok policy
unfolding new_retry_policy validate
policy_made = refl

abbrev rejected_at : ℤ → RetryInput
rejected_at attempt = record {
  attempt = attempt;
  request_started_at = 500;
  failure = FailureClass.rate_limit;
  send_boundary = SendBoundary.rejected;
  client_boundary = ClientBoundary.uncommitted;
  idempotency_guaranteed = false;
  retry_after = none;
}

abbrev asked_to_wait : RetryInput
asked_to_wait = record {
  attempt = pos 1;
  request_started_at = 500;
  failure = FailureClass.rate_limit;
  send_boundary = SendBoundary.rejected;
  client_boundary = ClientBoundary.uncommitted;
  idempotency_guaranteed = false;
  retry_after = some (record { delay = pos 0; at = 5000 });
}

waits : decide policy asked_to_wait 1000 ≡ ok (schedule 2 4000 5000)
unfolding decide validate_retry_input schedule_within combined_delay backoff_delay grow
waits = refl

decide-IsScheduled_example : IsScheduled policy asked_to_wait 1000 2 4000 5000
decide-IsScheduled_example = decide-IsScheduled policy asked_to_wait 1000 waits

decide-Honours_example :
    ((a : ℕ) × (base : ℕ) × (pos 1 ≡ pos a)
      × (backoff_delay backoff_config a (some first) ≡ ok base)
      × (base ≤ 4000))
    × Honours (some (record { delay = pos 0; at = 5000 })) 1000 4000 5000
decide-Honours_example = decide-Honours policy asked_to_wait 1000 waits

first_retry : decide policy (rejected_at (pos 1)) 1000 ≡ ok (schedule 2 900 1900)
unfolding decide validate_retry_input schedule_within combined_delay backoff_delay grow
first_retry = refl

second_retry : decide policy (rejected_at (pos 2)) 2000 ≡ ok (schedule 3 1800 3800)
unfolding decide validate_retry_input schedule_within combined_delay backoff_delay grow next_base
second_retry = refl

retries_bounded_example : (2 < 3) × (3 ≤ 1000)
retries_bounded_example =
    retries_bounded retry_config true (some first)
      ((rejected_at (pos 1), 1000) ∷ (rejected_at (pos 2), 2000) ∷ []) policy_made
      (refl, (900, 1900, first_retry), (refl, (1800, 3800, second_retry), tt))

decide_total_example : Answers (decide policy (rejected_at (negsuc 3)) 1000)
decide_total_example =
    decide_total retry_config true (some first) (rejected_at (negsuc 3)) 1000 policy_made
      first_in_range

first_backoff : backoff_delay backoff_config 1 (some first) ≡ ok 900
unfolding backoff_delay grow
first_backoff = refl

asked-IsRetryable : IsRetryable policy asked_to_wait 1000 1 900 4000
asked-IsRetryable = record {
  attempt = refl;
  first = omega arith;
  in_budget = omega arith;
  started = omega arith;
  before = omega arith;
  uncommitted = refl;
  retryable = refl;
  sent = refl;
  safe = inl (λ e. cc, λ e. cc);
  backoff = first_backoff;
  delays = inr (omega arith, refl, refl);
  in_time = omega arith;
}

decide_schedules_example : decide policy asked_to_wait 1000 ≡ ok (schedule 2 4000 5000)
decide_schedules_example = decide_schedules policy asked_to_wait 1000 1 900 4000 asked-IsRetryable

abbrev circuit_input : CircuitInput
circuit_input = record {
  failure_threshold = pos 2;
  success_threshold = pos 2;
  open_duration = pos 100;
  half_open_max_in_flight = pos 1;
}

abbrev circuit_config : CircuitConfig
circuit_config = record {
  failure_threshold = 2;
  success_threshold = 2;
  open_duration = 100;
  half_open_max_in_flight = 1;
}

abbrev in_state : CircuitState → ℕ → Circuit
in_state s at = record {
  config = circuit_config;
  state = s;
  generation = 0;
  consecutive_failures = 0;
  half_open_successes = 0;
  half_open_in_flight = 0;
  retry_at = at;
}

circuit_made : new_circuit circuit_input true ≡ ok (in_state closed 0)
unfolding new_circuit
circuit_made = refl

abbrev outage : List Call
outage =
    acquires 1
    ∷ acquires 2
    ∷ completes 0 failed 3
    ∷ completes 1 failed 4
    ∷ acquires 50
    ∷ acquires 150
    ∷ acquires 151
    ∷ []

-- The circuit opened at 4 and probes from 104 on, one at a time.
outage_probes :
    let m = run (record { circuit = in_state closed 0; permits = [] }) outage in
    (m.circuit.state ≡ half_open) × (live m.circuit m.permits ≡ 1)
unfolding run step acquire wake admit complete settle
outage_probes = (refl, refl)

run_counts_example :
    let m = run (record { circuit = in_state closed 0; permits = [] }) outage in
    (m.circuit.state ≡ closed → m.circuit.consecutive_failures < m.circuit.config.failure_threshold)
    × (m.circuit.half_open_successes < m.circuit.config.success_threshold)
    × (m.circuit.half_open_in_flight ≡ live m.circuit m.permits)
    × (live m.circuit m.permits ≤ m.circuit.config.half_open_max_in_flight)
run_counts_example = run_counts circuit_input true outage circuit_made (omega arith)

failures_trip_example :
    let c' = attempts (in_state closed 0) failed (5 ∷ []) in
    (c'.state ≡ closed)
    × (c'.consecutive_failures ≡ 1)
    × ((attempt c' 9 failed).state ≡ opened)
    × ((attempt c' 9 failed).retry_at ≡ 109)
failures_trip_example = failures_trip (in_state closed 0) (5 ∷ []) 9 refl refl

opened_acquire_example : (acquire (in_state opened 40) 20).1.allowed ≡ false
opened_acquire_example =
    ((opened_acquire (in_state opened 40) 20 refl (omega arith)).0 (omega arith)).1

abbrev permit : Permit
permit = record { completed = false; generation = 0; state = closed }

completed_once : (complete (in_state closed 0) (some permit) succeeded 7).2 ≡ true
unfolding complete settle
completed_once = refl

complete_twice_example :
    let q = (complete (in_state closed 0) (some permit) succeeded 7).1 in
    complete (in_state closed 0) q failed 8 ≡ (in_state closed 0, q, false)
complete_twice_example =
    complete_twice (in_state closed 0) (in_state closed 0) permit succeeded failed 7 8
      completed_once

probes_recover_example :
    let c' = attempts (in_state half_open 0) succeeded (5 ∷ []) in
    (c'.state ≡ half_open)
    × ((attempt c' 9 succeeded).state ≡ closed)
    × ((attempt c' 9 succeeded).consecutive_failures ≡ 0)
probes_recover_example = probes_recover (in_state half_open 0) (5 ∷ []) 9 refl (omega arith) refl
