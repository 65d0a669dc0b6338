-- ===== src/Resilience/Retry.antt =====
-- internal/resilience/retry.go and types.go: the decision whether a failed attempt is retried.
-- A time is a number of nanoseconds, 0 the zero time; `Decide` takes the clock's reading.
use llm2api.Prelude.{
  ℕ, zero, suc, ◌+◌, ◌-◌, ◌^◌, min, Bool, true, false, ◌||◌, ◌&&◌, not, Option, none, some, String,
  ℤ, pos, negsuc, ltb, leb, ◌==◌, if◌then◌else◌,
}
use llm2api.Resilience.Errors.{
  Outcome, ok, err, panic, invalid_configuration, invalid_input, ◌>>=◌, ◌>>◌,
}
use llm2api.Resilience.Backoff.{
  BackoffInput, BackoffConfig, Random, max_int64, validate, backoff_delay,
}
pub mod Policy
pub mod Schedule

-- `other` is a string that is none of the named classes.
pub data FailureClass : Type 0 where
  invalid_request authentication permission quota rate_limit provider_temporary : FailureClass
  provider_permanent timeout network canceled stream_interrupted storage uncertain : FailureClass
  other : String → FailureClass

pub data SendBoundary : Type 0 where
  not_started rejected accepted uncertain : SendBoundary
  other : String → SendBoundary

pub data ClientBoundary : Type 0 where
  uncommitted committed : ClientBoundary
  other : String → ClientBoundary

pub record RetryAfter : Type 0 where
  pub delay : ℤ
  pub at : ℕ

pub record RetryInput : Type 0 where
  pub attempt : ℤ
  pub request_started_at : ℕ
  pub failure : FailureClass
  pub send_boundary : SendBoundary
  pub client_boundary : ClientBoundary
  pub idempotency_guaranteed : Bool
  pub retry_after : Option RetryAfter

pub data RetryReason : Type 0 where
  retryable_failure terminal_failure attempt_budget elapsed_budget : RetryReason
  send_uncertain client_committed canceled : RetryReason

-- A decision by its action; the fields that an action leaves zero are left out.
pub data RetryDecision : Type 0 where
  schedule : (next_attempt delay next_attempt_at : ℕ) → RetryDecision
  stop : RetryReason → RetryDecision
  uncertain : RetryReason → RetryDecision

pub record RetryConfig : Type 0 where
  pub max_attempts : ℤ
  pub max_elapsed : ℤ
  pub backoff : BackoffInput

-- The policy that the constructor returns, its integers positive.
pub record RetryPolicy : Type 0 where
  pub max_attempts : ℕ
  pub max_elapsed : ℕ
  pub backoff : BackoffConfig
  pub random : Option Random

max_attempts_of : ℤ → Outcome ℕ
max_attempts_of (negsuc n) = err invalid_configuration
max_attempts_of (pos n) = if n == 0 || ltb 1000 n then err invalid_configuration else ok n

max_elapsed_of : ℤ → Outcome ℕ
max_elapsed_of (negsuc n) = err invalid_configuration
max_elapsed_of (pos zero) = err invalid_configuration
max_elapsed_of (pos (suc n)) = ok (suc n)

-- `has_clock` is false for a nil clock.
unfoldable pub new_retry_policy : RetryConfig → Bool → Option Random → Outcome RetryPolicy
unfolding max_attempts_of max_elapsed_of
new_retry_policy config has_clock random = do
  attempts ← max_attempts_of config.max_attempts
  elapsed ← max_elapsed_of config.max_elapsed
  if has_clock
      then (do
        backoff ← validate config.backoff random
        ok (record {
          max_attempts = attempts;
          max_elapsed = elapsed;
          backoff = backoff;
          random = random;
        }))
      else err invalid_configuration

abbrev pub retryable_failure? : FailureClass → Bool
retryable_failure? FailureClass.rate_limit = true
retryable_failure? FailureClass.provider_temporary = true
retryable_failure? FailureClass.timeout = true
retryable_failure? FailureClass.network = true
retryable_failure? FailureClass.stream_interrupted = true
retryable_failure? FailureClass.uncertain = true
retryable_failure? _ = false

abbrev valid_failure : FailureClass → Bool
valid_failure (FailureClass.other s) = false
valid_failure _ = true

abbrev pub valid_send_boundary : SendBoundary → Bool
valid_send_boundary (SendBoundary.other s) = false
valid_send_boundary _ = true

abbrev valid_client_boundary : ClientBoundary → Bool
valid_client_boundary (ClientBoundary.other s) = false
valid_client_boundary _ = true

abbrev pub is_uncertain : FailureClass → Bool
is_uncertain FailureClass.uncertain = true
is_uncertain _ = false

abbrev pub is_canceled : FailureClass → Bool
is_canceled FailureClass.canceled = true
is_canceled _ = false

abbrev pub is_send_uncertain : SendBoundary → Bool
is_send_uncertain SendBoundary.uncertain = true
is_send_uncertain _ = false

abbrev pub is_committed : ClientBoundary → Bool
is_committed ClientBoundary.committed = true
is_committed _ = false

-- The attempt, which must be positive, as a number.
positive_attempt : ℤ → Outcome ℕ
positive_attempt (negsuc n) = err invalid_input
positive_attempt (pos zero) = err invalid_input
positive_attempt (pos (suc n)) = ok (suc n)

unfoldable pub validate_retry_input : RetryInput → ℕ → Outcome ℕ
unfolding positive_attempt
validate_retry_input input now = do
  attempt ← positive_attempt input.attempt
  if input.request_started_at == 0 || ltb now input.request_started_at
      then err invalid_input
      else if not (valid_failure input.failure)
          || not (valid_send_boundary input.send_boundary)
          || not (valid_client_boundary input.client_boundary)
      then err invalid_input
      else ok attempt

-- `Time.Sub` saturates at the largest duration.
retry_after_delay : ℤ → ℕ → ℕ → Outcome ℕ
retry_after_delay (negsuc n) at now = err invalid_input
retry_after_delay (pos delay) at now =
    if not (at == 0) && not (delay == 0)
    then err invalid_input
    else if not (at == 0)
    then (if leb at now then ok 0 else ok (min (at - now) max_int64))
    else ok delay

-- The later of the backoff delay and the requested one.
unfoldable pub combined_delay : Option RetryAfter → ℕ → ℕ → Outcome ℕ
unfolding retry_after_delay
combined_delay none now delay = ok delay
combined_delay (some after) now delay = do
  requested ← retry_after_delay after.delay after.at now
  ok (if ltb delay requested then requested else delay)

-- From the budgets on, for a retryable failure.
unfoldable pub schedule_within : RetryPolicy → RetryInput → ℕ → ℕ → Outcome RetryDecision
schedule_within p input now attempt =
    let deadline = input.request_started_at + p.max_elapsed in
    if leb p.max_attempts attempt
    then ok (stop attempt_budget)
    else if leb deadline now
    then ok (stop elapsed_budget)
    else (do
      base ← backoff_delay p.backoff attempt p.random
      delay ← combined_delay input.retry_after now base
      if leb deadline (now + delay)
          then ok (stop elapsed_budget)
          else ok (schedule (attempt + 1) delay (now + delay)))

unfoldable pub decide : RetryPolicy → RetryInput → ℕ → Outcome RetryDecision
decide p input now = do
  attempt ← validate_retry_input input now
  if is_committed input.client_boundary
      then ok (stop client_committed)
      else if is_canceled input.failure
      then ok (stop canceled)
      else if (is_uncertain input.failure || is_send_uncertain input.send_boundary)
          && not input.idempotency_guaranteed
      then ok (RetryDecision.uncertain send_uncertain)
      else if not (retryable_failure? input.failure)
      then ok (stop terminal_failure)
      else schedule_within p input now attempt
