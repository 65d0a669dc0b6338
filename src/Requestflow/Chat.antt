-- ===== src/Requestflow/Chat.antt =====
-- internal/requestflow/chat.go: `Chat` without streaming, as a loop over attempts. A call of the
-- clock stands where the source reads it; an attempt number is the number of the round.
use llm2api.Prelude.{
  ℕ, zero, suc, ◌+◌, Bool, true, false, ◌&&◌, not, Option, none, some, List, [], ◌∷◌, ◌++◌, length,
  ℤ, pos, ltb, leb, ◌==◌, if◌then◌else◌,
}
use llm2api.Resilience.Errors
use llm2api.Resilience.Retry.{
  RetryPolicy, RetryInput, RetryDecision, schedule, SendBoundary, ClientBoundary, decide,
}
use llm2api.Requestflow.Request.{ChatRequest, Usage}
use llm2api.Requestflow.Failures.{
  ErrorKind, Failure, with_status, failure_of, is_uncertain, should_try_next_candidate,
  failure_class, retry_after_of, ensure_client_retry_after,
}
use llm2api.Requestflow.Effects.{
  Effect, request_failed, waited_until, admission_released, execution_stopped,
}
use llm2api.Requestflow.Candidates.{
  Candidate, Run, Flow, called, after, exclude, Pool, Outcome, done, failed, routing_id, enough,
  attempt_decision,
}
use llm2api.Requestflow.Attempt.{Config, Upstream, Attempted, fails, non_stream_attempt}
pub mod Steps
pub mod Loop

-- What follows an attempt that failed; a wait ends at a time.
pub data Next : Type 0 where
  returns gives_up next_candidate : Next
  waits_until : ℕ → Next

abbrev scheduled : Errors.Outcome RetryDecision → Next
scheduled (Errors.ok (schedule attempt delay at)) = waits_until at
scheduled _ = gives_up

abbrev pub retry_input : ℕ → ℕ → Failure → RetryInput
retry_input started sequence e = record {
  attempt = pos sequence;
  request_started_at = started;
  failure = failure_class e.kind;
  send_boundary = SendBoundary.rejected;
  client_boundary = ClientBoundary.uncommitted;
  idempotency_guaranteed = false;
  retry_after = retry_after_of e.retry_after;
}

unfoldable pub next_of : RetryPolicy → Run → ℕ → ℕ → Failure → List ℕ → ℕ → Next
next_of retry run started sequence e excluded now =
    if is_uncertain e.kind
    then returns
    else if should_try_next_candidate e && ltb (length excluded + 1) (length run.candidates)
    then next_candidate
    else scheduled (decide retry (retry_input started sequence e) now)

-- After a retry was scheduled: where all candidates are excluded, none is any more.
unfoldable pub reset : Run → List ℕ → List ℕ
reset run excluded = if length excluded == length run.candidates then [] else excluded

abbrev pub exclude_or_reset : Run → ℕ → Flow → Flow
exclude_or_reset run id f = record f { excluded = reset run (f.excluded ++ id ∷ []) }

-- Whether `waitUntil` waits.
abbrev pub is_later : ℕ → ℕ → Bool
is_later at now = ltb now at

pub record Answered : Type 0 where
  pub flow : Flow
  pub outcome : Outcome Usage

-- How a round of the loop ends.
pub data Round : Type 0 where
  stops : Answered → Round
  repeats : Flow → Round

abbrev request_canceled : Failure
request_canceled = failure_of ErrorKind.invalid_request "request_canceled"

module _ (p : Pool) (u : Upstream) (config : Config) (retry : RetryPolicy) (run : Run) where
  abbrev pub give_up : Failure → Failure → Flow → Answered
  give_up e told f = record { flow = after (request_failed e.code) f; outcome = failed told }

  -- What follows the error of an attempt.
  unfoldable pub react : Candidate → Failure → Flow → Next → Round
  react c e f returns = stops (record { flow = f; outcome = failed e })
  react c e f gives_up =
      stops (
        give_up e (ensure_client_retry_after config.open_duration (p.now (suc f.tick)) e)
          (called f))
  react c e f next_candidate = repeats (exclude (routing_id c) f)
  react c e f (waits_until at) =
      let g = called (called (exclude_or_reset run (routing_id c) f)) in
      if not (is_later at (p.now (suc f.tick)))
      then repeats g
      else if u.canceled g.tick
      then stops
          (record { flow = after (request_failed "canceled") g; outcome = failed request_canceled })
      else repeats (after (waited_until at) g)

  unfoldable pub conclude : ℕ → ℕ → Candidate → Flow → Outcome Usage → Round
  conclude started sequence c f (done usage) = stops (record { flow = f; outcome = done usage })
  conclude started sequence c f (failed e) =
      react c e f (next_of retry run started sequence e f.excluded (p.now f.tick))

  unfoldable pub round_from : ℕ → ℕ → Flow → Outcome Candidate → Round
  round_from started sequence f (failed e) = stops (give_up e e f)
  round_from started sequence f (done c) =
      let a = non_stream_attempt p u config run c sequence f in
      conclude started sequence c a.flow a.outcome

  -- The body of the loop.
  unfoldable pub round : ℕ → ℕ → Flow → Option Round
  round started sequence f = elim (attempt_decision p run (enough run) none false f) [
    | none ↦ none
    | some d ↦ some (round_from started sequence d.flow d.outcome)
  ]

  -- The loop of `Chat` on fuel; `none` is its end.
  unfoldable pub chat_loop : ℕ → ℕ → ℕ → Flow → Option Answered
  chat_loop zero started sequence f = none
  chat_loop (suc fuel) started sequence f = elim (round started sequence f) [
    | none ↦ none
    | some (stops a) ↦ some a
    | some (repeats g) ↦ chat_loop fuel started (suc sequence) g
  ]

  -- Fuel for the attempts of the retry policy and one for each candidate.
  abbrev pub chat_fuel : ℕ
  chat_fuel = retry.max_attempts + length run.candidates + 2

  abbrev streamed : Failure
  streamed = with_status ErrorKind.invalid_request "stream_requires_stream_endpoint" 400

  -- From the prepared run on.
  unfoldable pub run_attempts : Flow → Option Answered
  run_attempts f =
      let stream : Answered = record {
        flow = after (request_failed "invalid_request") f;
        outcome = failed streamed;
      } in
      let rest = chat_loop chat_fuel (p.now f.tick) 1 (called (record f { excluded = [] })) in
      if run.request.stream then some stream else rest

  -- The deferred calls.
  abbrev pub close : Answered → Answered
  close a = record a { flow = after admission_released (after execution_stopped a.flow) }

  unfoldable pub chat : Flow → Option Answered
  chat f = elim (run_attempts f) [ none ↦ none | some a ↦ some (close a) ]
