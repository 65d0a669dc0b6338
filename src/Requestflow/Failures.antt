-- ===== src/Requestflow/Failures.antt =====
-- internal/canonical/errors.go, and what internal/requestflow/service.go and chat.go make of errors.
-- An error is its kind, code, status, retry hint and whether a replay is safe; messages, causes and
-- the fields that only describe are left out. Of an interface's error only its class is read.
use text.Mathlib.Text.{◌==◌ as same_text}
use llm2api.Prelude.{
  ℕ, suc, ◌+◌, ◌-◌, ◌*◌, ◌%◌, Bool, true, false, ◌&&◌, ◌||◌, Option, none, some, String, ℤ, pos,
  negsuc, ltb, ◌==◌, signed64, if◌then◌else◌,
}
use llm2api.Resilience.Retry.{FailureClass}
use llm2api.Resilience.Retry

pub data ErrorKind : Type 0 where
  invalid_request authentication permission quota admission_timeout rate_limit : ErrorKind
  unsupported_capability provider_configuration provider_temporary : ErrorKind
  provider_permanent stream_interrupted uncertain storage_unavailable : ErrorKind
  internal_invariant : ErrorKind

pub record RetryAfter : Type 0 where
  pub delay_seconds : Option ℤ
  pub at : Option ℕ

pub record Failure : Type 0 where
  pub kind : ErrorKind
  pub code : String
  pub http_status : Option ℕ
  pub retry_after : Option RetryAfter
  pub replay_safe : Bool

abbrev pub failure_of : ErrorKind → String → Failure
failure_of kind code = record {
  kind = kind;
  code = code;
  http_status = none;
  retry_after = none;
  replay_safe = false;
}

abbrev pub with_status : ErrorKind → String → ℕ → Failure
with_status kind code status = record (failure_of kind code) { http_status = some status }

abbrev pub at_time : ℕ → RetryAfter
at_time at = record { delay_seconds = none; at = some at }

unfoldable pub seconds : ℤ → ℤ
seconds (pos n) = signed64 (n * 1000000000 % 18446744073709551616)
seconds (negsuc n) =
    signed64
      ((18446744073709551616 - suc n * 1000000000 % 18446744073709551616) % 18446744073709551616)

abbrev pub add_duration : ℕ → ℤ → ℕ
add_duration now (pos n) = now + n
add_duration now (negsuc n) = now - suc n

-- The error of a call to the repository or the accounting.
pub data StateError : Type 0 where
  model_not_found model_not_authorized idempotency_conflict invalid_accounting : StateError
  other_state_error : StateError

unfoldable pub workflow_error : StateError → Failure
workflow_error model_not_found = with_status ErrorKind.invalid_request "model_not_found" 404
workflow_error model_not_authorized = with_status ErrorKind.permission "model_not_authorized" 403
workflow_error idempotency_conflict =
    with_status ErrorKind.invalid_request "idempotency_conflict" 409
workflow_error invalid_accounting =
    with_status ErrorKind.invalid_request "invalid_request_accounting" 400
workflow_error other_state_error =
    failure_of ErrorKind.storage_unavailable "request_state_unavailable"

-- The error of a call for admission or capacity; `capacity_exhausted` carries its time.
pub data AdmissionFailure : Type 0 where
  capacity_exhausted : ℕ → AdmissionFailure
  queue_full timed_out admission_canceled coordination_failed : AdmissionFailure
  other_admission_error : AdmissionFailure

unfoldable pub admission_error : AdmissionFailure → Failure
admission_error (capacity_exhausted retry_at) =
    record (failure_of ErrorKind.rate_limit "admission_capacity_exhausted") {
      retry_after = some (at_time retry_at);
    }
admission_error queue_full = with_status ErrorKind.rate_limit "admission_queue_full" 429
admission_error timed_out = with_status ErrorKind.rate_limit "admission_timeout" 429
admission_error admission_canceled = with_status ErrorKind.invalid_request "request_canceled" 408
admission_error coordination_failed =
    with_status ErrorKind.storage_unavailable "admission_unavailable" 503
admission_error other_admission_error = failure_of ErrorKind.internal_invariant "admission_failed"

unfoldable pub storage_error : String → Failure
storage_error code = failure_of ErrorKind.storage_unavailable code

-- nil and the zero time count alike.
abbrev pub no_time : Option ℕ → Bool
no_time none = true
no_time (some t) = t == 0

unfoldable pub earlier_retry_at : Option ℕ → Option ℕ → Option ℕ
earlier_retry_at none right = right
earlier_retry_at (some l) none = if l == 0 then none else some l
earlier_retry_at (some l) (some r) =
    if l == 0 then some r else if r == 0 || ltb l r then some l else some r

abbrev pub value_or_now : Option ℕ → ℕ → ℕ
value_or_now none now = now
value_or_now (some t) now = if t == 0 then now else t

unfoldable pub circuit_unavailable_error : Option ℕ → Failure
circuit_unavailable_error none = failure_of ErrorKind.provider_temporary "upstream_circuit_open"
circuit_unavailable_error (some at) =
    if at == 0
    then failure_of ErrorKind.provider_temporary "upstream_circuit_open"
    else record (failure_of ErrorKind.provider_temporary "upstream_circuit_open") {
      retry_after = some (at_time at);
    }

abbrev delayed : ℕ → Option ℤ → Option ℕ
delayed now none = none
delayed now (some s) = some (add_duration now (seconds s))

abbrev first_time : Option ℕ → Option ℕ → Option ℕ
first_time none right = right
first_time (some at) right = some at

unfoldable pub retry_after_at : Option RetryAfter → ℕ → Option ℕ
retry_after_at none now = none
retry_after_at (some r) now = first_time r.at (delayed now r.delay_seconds)

abbrev duration_of : Option ℤ → ℤ
duration_of none = pos 0
duration_of (some s) = seconds s

abbrev time_of : Option ℕ → ℕ
time_of none = 0
time_of (some at) = at

-- The retry policy's form of a hint.
unfoldable pub retry_after_of : Option RetryAfter → Option Retry.RetryAfter
retry_after_of none = none
retry_after_of (some r) = some (record { delay = duration_of r.delay_seconds; at = time_of r.at })

unfoldable pub failure_class : ErrorKind → FailureClass
failure_class ErrorKind.authentication = FailureClass.authentication
failure_class ErrorKind.permission = FailureClass.permission
failure_class ErrorKind.quota = FailureClass.quota
failure_class ErrorKind.rate_limit = FailureClass.rate_limit
failure_class ErrorKind.provider_temporary = FailureClass.provider_temporary
failure_class ErrorKind.provider_permanent = FailureClass.provider_permanent
failure_class ErrorKind.provider_configuration = FailureClass.provider_permanent
failure_class ErrorKind.stream_interrupted = FailureClass.stream_interrupted
failure_class ErrorKind.storage_unavailable = FailureClass.storage
failure_class ErrorKind.uncertain = FailureClass.uncertain
failure_class ErrorKind.invalid_request = FailureClass.invalid_request
failure_class ErrorKind.admission_timeout = FailureClass.invalid_request
failure_class ErrorKind.unsupported_capability = FailureClass.invalid_request
failure_class ErrorKind.internal_invariant = FailureClass.invalid_request

abbrev pub worth_another : ErrorKind → Bool
worth_another ErrorKind.authentication = true
worth_another ErrorKind.permission = true
worth_another ErrorKind.quota = true
worth_another ErrorKind.rate_limit = true
worth_another ErrorKind.provider_temporary = true
worth_another _ = false

unfoldable pub should_try_next_candidate : Failure → Bool
should_try_next_candidate e = e.replay_safe && worth_another e.kind

abbrev pub is_uncertain : ErrorKind → Bool
is_uncertain ErrorKind.uncertain = true
is_uncertain _ = false

-- What a failed attempt says of its credential.
pub record CredentialObservation : Type 0 where
  pub succeeded : Bool
  pub observed_at : ℕ
  pub health_generation : ℕ
  pub cooldown_until : Option ℕ

-- What becomes of the credential after an error of this kind.
pub data Cooling : Type 0 where
  cools stays_unavailable unobserved : Cooling

abbrev pub cooling : ErrorKind → Cooling
cooling ErrorKind.rate_limit = cools
cooling ErrorKind.provider_temporary = cools
cooling ErrorKind.stream_interrupted = cools
cooling ErrorKind.uncertain = cools
cooling ErrorKind.authentication = stays_unavailable
cooling ErrorKind.permission = stays_unavailable
cooling ErrorKind.quota = stays_unavailable
cooling ErrorKind.provider_configuration = stays_unavailable
cooling ErrorKind.provider_permanent = stays_unavailable
cooling ErrorKind.unsupported_capability = stays_unavailable
cooling _ = unobserved

abbrev later_time : ℕ → Option ℕ → ℕ
later_time t none = t
later_time t (some u) = if ltb t u then u else t

unfoldable pub credential_failure : ℕ → Failure → ℕ → Bool → ℕ → Option CredentialObservation
credential_failure open_duration e observed_at canceled_locally generation =
    if canceled_locally || same_text e.code "client_stream_interrupted"
    then none
    else elim (cooling e.kind) [
      | cools ↦ some (record {
        succeeded = false;
        observed_at = observed_at;
        health_generation = generation;
        cooldown_until =
            some
              (later_time (observed_at + open_duration) (retry_after_at e.retry_after observed_at));
      })
      | stays_unavailable ↦ some (record {
        succeeded = false;
        observed_at = observed_at;
        health_generation = generation;
        cooldown_until = none;
      })
      | unobserved ↦ none
    ]

unfoldable pub ensure_client_retry_after : ℕ → ℕ → Failure → Failure
ensure_client_retry_after open_duration now e = elim e.retry_after [
  | some r ↦ e
  | none ↦ elim e.kind [
    | ErrorKind.rate_limit ↦ record e { retry_after = some (at_time (now + open_duration)) }
    | ErrorKind.provider_temporary ↦ record e { retry_after = some (at_time (now + open_duration)) }
    | _ ↦ e
  ]
]
