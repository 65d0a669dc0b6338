-- ===== src/Resilience/Retry/Schedule.antt =====
-- internal/resilience/retry.go: when `Decide` schedules another attempt, and with what delay.
use llm2api.Prelude.{
  ℕ, ◌+◌, ◌≤◌, ◌<◌, min, ◌≡◌, ◌⊎◌, Bool, true, false, Option, none, some, pos, arith, List, [], ◌∷◌,
  length, ◌||◌, ◌&&◌, not,
}
use llm2api.Resilience.Errors.{ok}
use llm2api.Resilience.Backoff.{max_int64, backoff_delay}
use llm2api.Resilience.Retry.{
  FailureClass, SendBoundary, ClientBoundary, RetryAfter, RetryInput, schedule, RetryPolicy,
  retryable_failure?, is_committed, is_uncertain, is_send_uncertain, combined_delay,
  validate_retry_input, schedule_within, decide,
}

-- What a retry-after asks for is met by an attempt at `t`, a delay `d` after `now`. (The distance
-- to a deadline is a duration, which ends at the largest int64.)
abbrev pub Honours : Option RetryAfter → ℕ → ℕ → ℕ → Type 0
Honours none now d t = Unit {0}
Honours (some after) now d t =
    (after.at ≡ 0 → (n : ℕ) × (after.delay ≡ pos n) × (n ≤ d))
    × (min after.at (now + max_int64) ≤ t)

pub record IsScheduled (p : RetryPolicy) (input : RetryInput) (now n d t : ℕ) : Type 0 where
  pub uncommitted : input.client_boundary ≡ ClientBoundary.uncommitted
  pub retryable : retryable_failure? input.failure ≡ true
  pub safe :
      (input.failure ≡ FailureClass.uncertain) ⊎ (input.send_boundary ≡ SendBoundary.uncertain)
      → input.idempotency_guaranteed ≡ true
  pub next : (a : ℕ) × (input.attempt ≡ pos a) × (n ≡ a + 1) × (0 < a)
  pub in_budget : n ≤ p.max_attempts
  pub at_delay : t ≡ now + d
  pub in_time : t < input.request_started_at + p.max_elapsed

pub combined_delay_lem :
    (after : Option RetryAfter) (now base d : ℕ)
    → combined_delay after now base ≡ ok d
    → (base ≤ d) × Honours after now d (now + d)
unfolding combined_delay
combined_delay_lem none now base d h = ground arith
combined_delay_lem (some after) now base d h = ground arith

validate_retry_input_lem :
    (input : RetryInput) (now a : ℕ)
    → validate_retry_input input now ≡ ok a
    → (input.attempt ≡ pos a)
      × (0 < a)
      × (input.request_started_at ≤ now)
      × ((input.client_boundary ≡ ClientBoundary.uncommitted)
          ⊎ (input.client_boundary ≡ ClientBoundary.committed))
unfolding validate_retry_input
validate_retry_input_lem input now a h = ground arith

-- What the budgets leave: the delay is the one that backoff and retry-after give.
schedule_within_lem :
    (p : RetryPolicy) (input : RetryInput) (now a : ℕ) {n d t : ℕ}
    → schedule_within p input now a ≡ ok (schedule n d t)
    → (n ≡ a + 1)
      × (n ≤ p.max_attempts)
      × (t ≡ now + d)
      × (t < input.request_started_at + p.max_elapsed)
      × ((base : ℕ) × (backoff_delay p.backoff a p.random ≡ ok base)
          × (combined_delay input.retry_after now base ≡ ok d))
unfolding schedule_within
schedule_within_lem p input now a h = ground arith

-- `decide` past its first checks.
pub decide_schedule :
    (p : RetryPolicy) (input : RetryInput) (now : ℕ) {n d t : ℕ}
    → decide p input now ≡ ok (schedule n d t)
    → (a : ℕ) × (validate_retry_input input now ≡ ok a)
      × (is_committed input.client_boundary ≡ false)
      × (((is_uncertain input.failure || is_send_uncertain input.send_boundary)
            && not input.idempotency_guaranteed)
          ≡ false)
      × (retryable_failure? input.failure ≡ true)
      × (schedule_within p input now a ≡ ok (schedule n d t))
unfolding decide
decide_schedule p input now h = ground arith

safe_of :
    (f : FailureClass) (s : SendBoundary) (g : Bool)
    → ((is_uncertain f || is_send_uncertain s) && not g) ≡ false
    → (f ≡ FailureClass.uncertain) ⊎ (s ≡ SendBoundary.uncertain)
    → g ≡ true
safe_of f s g e h = ground arith

-- A scheduled attempt: nothing was committed to the client; the failure is retryable; a request
-- whose outcome is uncertain is declared idempotent; the attempt is the next one and within the
-- attempt budget; it starts after the delay and before the elapsed budget ends.
pub decide-IsScheduled :
    (p : RetryPolicy) (input : RetryInput) (now : ℕ) {n d t : ℕ}
    → decide p input now ≡ ok (schedule n d t)
    → IsScheduled p input now n d t
decide-IsScheduled p input now h =
    let (a, valid, client, safe, retryable, within) = decide_schedule p input now h in
    let (attempt, positive, started, client_or) = validate_retry_input_lem input now a valid in
    let (next, budget, at, in_time, _) = schedule_within_lem p input now a within in
    record {
      uncommitted = ground arith;
      retryable = retryable;
      safe = safe_of input.failure input.send_boundary input.idempotency_guaranteed safe;
      next = (a, attempt, next, positive);
      in_budget = budget;
      at_delay = at;
      in_time = in_time;
    }

-- The delay of a scheduled attempt is at least the backoff delay of the failed attempt, and
-- honours what a retry-after asks for.
pub decide-Honours :
    (p : RetryPolicy) (input : RetryInput) (now : ℕ) {n d t : ℕ}
    → decide p input now ≡ ok (schedule n d t)
    → ((a base : ℕ) × (input.attempt ≡ pos a)
        × (backoff_delay p.backoff a p.random ≡ ok base)
        × (base ≤ d))
      × Honours input.retry_after now d t
decide-Honours p input now {n} {d} {t} h =
    let (a, valid, _, _, _, within) = decide_schedule p input now h in
    let (attempt, _, _, _) = validate_retry_input_lem input now a valid in
    let (_, _, at, _, (base, drawn, combined)) = schedule_within_lem p input now a within in
    let (above, honoured) = combined_delay_lem input.retry_after now base d combined in
    ((a, base, attempt, drawn, above), rw at honoured)

-- A chain of decisions, the first about attempt `a`: each fails again after the wait and schedules
-- the next.
abbrev pub IsRetried : RetryPolicy → ℕ → List (RetryInput × ℕ) → Type 0
IsRetried p a [] = Unit {0}
IsRetried p a ((input, now) ∷ rest) =
    (input.attempt ≡ pos a)
    × ((d t : ℕ) × (decide p input now ≡ ok (schedule (a + 1) d t)))
    × IsRetried p (a + 1) rest

-- However the attempts fail, a request is attempted at most `max_attempts` times.
pub IsRetried-length :
    (p : RetryPolicy) (a : ℕ) (chain : List (RetryInput × ℕ))
    → a ≤ p.max_attempts
    → IsRetried p a chain
    → length chain + a ≤ p.max_attempts
IsRetried-length p a [] h r = omega arith
IsRetried-length p a ((input, now) ∷ rest) h (_, (_, _, e), r) = omega (
  arith,
  (decide-IsScheduled p input now e).in_budget,
  IsRetried-length p (a + 1) rest (decide-IsScheduled p input now e).in_budget r,
)
