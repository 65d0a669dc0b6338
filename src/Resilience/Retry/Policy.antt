-- ===== src/Resilience/Retry/Policy.antt =====
-- internal/resilience/retry.go: the policies that `NewRetryPolicy` makes.
use llm2api.Prelude.{
  ℕ, ◌+◌, ◌-◌, min, max, ◌≤◌, ◌<◌, ◌≡◌, refl, ◌≢◌, ◌⊎◌, Bool, true, false, Option, none, some, pos,
  arith, List, length, not, ◌&&◌, ◌||◌, leb, if◌then◌else◌,
}
use llm2api.Resilience.Errors.{Outcome, ok, err, panic, invalid_input, ◌>>=◌}
use llm2api.Resilience.Backoff.{Random, max_int64, validate, backoff_delay}
use llm2api.Resilience.Backoff.Delay.{InRange, backoff_delay_total}
use llm2api.Resilience.Retry.{
  FailureClass, SendBoundary, ClientBoundary, RetryAfter, RetryInput, valid_send_boundary,
  RetryDecision, schedule, RetryConfig, RetryPolicy, new_retry_policy, retryable_failure?,
  is_committed, is_canceled, is_uncertain, is_send_uncertain, combined_delay, validate_retry_input,
  schedule_within, decide, send_uncertain, stop, terminal_failure,
}
use llm2api.Resilience.Retry.Schedule.{IsRetried, IsRetried-length}

new_retry_policy_lem :
    (config : RetryConfig) (has_clock : Bool) (random : Option Random) {p : RetryPolicy}
    → new_retry_policy config has_clock random ≡ ok p
    → (0 < p.max_attempts)
      × (p.max_attempts ≤ 1000)
      × (0 < p.max_elapsed)
      × (p.random ≡ random)
      × (validate config.backoff random ≡ ok p.backoff)
unfolding new_retry_policy
new_retry_policy_lem config has_clock random h = ground arith

-- However its attempts fail, a request under a constructed policy is attempted at most
-- `max_attempts` times, which is at most a thousand: a chain of scheduled retries is shorter.
pub retries_bounded :
    (config : RetryConfig) (has_clock : Bool) (random : Option Random)
    (chain : List (RetryInput × ℕ)) {p : RetryPolicy}
    → new_retry_policy config has_clock random ≡ ok p
    → IsRetried p 1 chain
    → (length chain < p.max_attempts) × (p.max_attempts ≤ 1000)
retries_bounded config has_clock random chain {p} made r =
    let (least, most, _, _, _) = new_retry_policy_lem config has_clock random made in
    omega (arith, IsRetried-length p 1 chain least r)

-- A value, or the refusal of the input: no other error, and no panic.
abbrev pub Answers {ℓ} : {A : Type ℓ} → Outcome A → Type 0
Answers (ok a) = Unit {0}
Answers (err e) = e ≡ invalid_input
Answers panic = ⊥

module _ {ℓ κ} {A : Type ℓ} {B : Type κ} where
  Answers-bind :
      (m : Outcome A) (f : A → Outcome B)
      → Answers m
      → ((a : A) → m ≡ ok a → Answers (f a))
      → Answers (m >>= f)
  Answers-bind (ok a) f h k = k a refl
  Answers-bind (err e) f h k = h
  Answers-bind panic f h k = h

module _ {ℓ} {A : Type ℓ} where
  Answers-if : (b : Bool) (x y : Outcome A) → Answers x → Answers y → Answers (if b then x else y)
  Answers-if true x y h k = h
  Answers-if false x y h k = k

combined_delay-Answers :
    (input : RetryInput) (now base : ℕ) → Answers (combined_delay input.retry_after now base)
unfolding combined_delay
combined_delay-Answers input now base = ground arith

validate_retry_input-Answers :
    (input : RetryInput) (now : ℕ) → Answers (validate_retry_input input now)
unfolding validate_retry_input
validate_retry_input-Answers input now = ground arith

module _ (p : RetryPolicy) (input : RetryInput) (now : ℕ)
    (drawn : (a : ℕ) → (d : ℕ) × (backoff_delay p.backoff a p.random ≡ ok d)) where
  schedule_within-Answers : (a : ℕ) → Answers (schedule_within p input now a)
  unfolding schedule_within
  schedule_within-Answers a =
      let (d, e) = drawn a in
      Answers-if (leb p.max_attempts a) _ _ tt (
        Answers-if (leb (input.request_started_at + p.max_elapsed) now) _ _ tt (
          rw e (
            Answers-bind (combined_delay input.retry_after now d) _
              (combined_delay-Answers input now d)
              (λ delay _.
                Answers-if (leb (input.request_started_at + p.max_elapsed) (now + delay)) _ _ tt
                  tt))))

  decide-Answers : Answers (decide p input now)
  unfolding decide
  decide-Answers =
      Answers-bind (validate_retry_input input now) _ (validate_retry_input-Answers input now)
        (λ a _. Answers-if (is_committed input.client_boundary) _ _ tt (
          Answers-if (is_canceled input.failure) _ _ tt (
            Answers-if
              ((is_uncertain input.failure || is_send_uncertain input.send_boundary)
                && not input.idempotency_guaranteed)
              (ok (RetryDecision.uncertain send_uncertain)) _ tt
              (Answers-if (not (retryable_failure? input.failure)) (ok (stop terminal_failure)) _ tt
                (schedule_within-Answers a)))))

-- Under a constructed policy whose random source, if any, keeps its range, `Decide` returns a
-- decision or refuses the input as invalid.
pub decide_total :
    (config : RetryConfig) (has_clock : Bool) (random : Option Random) (input : RetryInput)
    (now : ℕ) {p : RetryPolicy}
    → new_retry_policy config has_clock random ≡ ok p
    → ((r : Random) → random ≡ some r → InRange r)
    → Answers (decide p input now)
decide_total config has_clock random input now {p} made good =
    let (_, _, _, same, valid) = new_retry_policy_lem config has_clock random made in
    decide-Answers p input now
      (λ a. rw same (backoff_delay_total config.backoff random a valid good))

-- The delay before the next attempt: the backoff delay, or what a valid retry-after asks for where
-- that is longer. It has a delay or a time, not both.
abbrev pub Delays : Option RetryAfter → ℕ → ℕ → ℕ → Type 0
Delays none now base d = d ≡ base
Delays (some after) now base d =
    ((after.at ≡ 0) × ((n : ℕ) × (after.delay ≡ pos n) × (d ≡ max base n)))
    ⊎ ((0 < after.at) × (after.delay ≡ pos 0) × (d ≡ max base (min (after.at - now) max_int64)))

-- A failure that `Decide` retries: attempt `a` of `input`, after a backoff delay `base`, with a delay
-- `d` from `now`.
pub record IsRetryable (p : RetryPolicy) (input : RetryInput) (now a base d : ℕ) : Type 0 where
  pub attempt : input.attempt ≡ pos a
  pub first : 0 < a
  pub in_budget : a < p.max_attempts
  pub started : 0 < input.request_started_at
  pub before : input.request_started_at ≤ now
  pub uncommitted : input.client_boundary ≡ ClientBoundary.uncommitted
  pub retryable : retryable_failure? input.failure ≡ true
  pub sent : valid_send_boundary input.send_boundary ≡ true
  pub safe :
      ((input.failure ≢ FailureClass.uncertain) × (input.send_boundary ≢ SendBoundary.uncertain))
      ⊎ (input.idempotency_guaranteed ≡ true)
  pub backoff : backoff_delay p.backoff a p.random ≡ ok base
  pub delays : Delays input.retry_after now base d
  pub in_time : now + d < input.request_started_at + p.max_elapsed

module _ (p : RetryPolicy) (input : RetryInput) (now a base d : ℕ)
    (r : IsRetryable p input now a base d) where
  validate_retry_input-ok : validate_retry_input input now ≡ ok a
  unfolding validate_retry_input
  validate_retry_input-ok =
      ground (arith, r.attempt, r.first, r.started, r.before, r.uncommitted, r.retryable, r.sent)

  combined_delay-ok :
      (after : Option RetryAfter) → Delays after now base d → combined_delay after now base ≡ ok d
  unfolding combined_delay
  combined_delay-ok none h = ground arith
  combined_delay-ok (some after) h = ground arith

  schedule_within-ok : schedule_within p input now a ≡ ok (schedule (a + 1) d (now + d))
  unfolding schedule_within
  schedule_within-ok =
      ground
        (arith, r.in_budget, r.backoff, combined_delay-ok input.retry_after r.delays, r.in_time)

-- Every failed attempt is retried that may be: it is attempt `a` of a request that started before,
-- with attempts left in the budget; nothing is committed to the client; the failure is retryable;
-- neither it nor the send is uncertain, or the request is declared idempotent; and after the backoff
-- delay, or the time that a valid retry-after asks for if that is longer, the elapsed budget is not
-- used up. The next attempt is then scheduled after exactly that delay.
pub decide_schedules :
    (p : RetryPolicy) (input : RetryInput) (now a base d : ℕ)
    → IsRetryable p input now a base d
    → decide p input now ≡ ok (schedule (a + 1) d (now + d))
unfolding decide
decide_schedules p input now a base d r = ground (
  arith,
  validate_retry_input-ok p input now a base d r,
  schedule_within-ok p input now a base d r,
  r.uncommitted,
  r.retryable,
  r.safe,
)
