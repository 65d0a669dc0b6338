-- ===== src/Requestflow/Attempt.antt =====
-- internal/requestflow/chat.go: one attempt without streaming, for a candidate that holds a lease,
-- and the usage it records. The repository, the accounting, the provider's adapter and the HTTP
-- client are parameters that answer by the number of calls made before. The permit's `Complete` is
-- empty in the source.
use llm2api.Prelude.{
  ℕ, zero, suc, ◌+◌, ◌/◌, Bool, true, false, ◌&&◌, ◌||◌, not, Option, none, some, String, List, [],
  ◌∷◌, length, ℤ, pos, ltb, leb, if◌then◌else◌, add64, less_int,
}
use llm2api.Requestflow.Request.{
  Message, ToolCall, ChatRequest, UsageSource, authoritative, estimated, ReportedUsage, Usage,
  ChatResponse,
}
use llm2api.Requestflow.Estimate.{sum_of, estimate_input_tokens}
use llm2api.Requestflow.Failures.{
  ErrorKind, Failure, failure_of, at_time, storage_error, CredentialObservation, credential_failure,
}
use llm2api.Requestflow.Effects.{
  Effect, lease_released, attempt_sending, request_sent, result_stored, attempt_created,
  attempt_failed, outcome_uncertain, attempt_completed, request_completed, lease_reconciled,
}
use llm2api.Requestflow.Candidates.{
  Candidate, Run, Flow, called, after, Pool, Outcome, done, failed,
}
pub mod Sound

pub record Config : Type 0 where
  pub open_duration : ℕ
  pub max_response_bytes : ℕ

-- What `buildUpstream` is told; an error of the request may be one of the provider's own.
pub record Build : Type 0 where
  pub adapter_valid : Bool
  pub secret_available : Bool
  pub request_error : Option (Option Failure)
  pub client_valid : Bool

pub data Body : Type 0 where
  unreadable : Body
  of_length : ℕ → Body

pub data Sent : Type 0 where
  no_response : Sent
  response : (status : ℕ) → Body → Sent

pub data Saved : Type 0 where
  saved fenced not_saved : Saved

pub record Upstream : Type 0 where
  pub created : ℕ → Bool
  pub build : ℕ → Build
  pub sending : ℕ → Bool
  pub sent : ℕ → Sent
  pub classify : ℕ → ℕ → Failure
  pub parsed : ℕ → Option ChatResponse
  pub canceled : ℕ → Bool
  pub uncertain_saved : ℕ → Saved
  pub sink : Option (ℕ → Bool)
  pub completed : ℕ → Bool
  pub accounted : ℕ → Bool

pub record Attempted : Type 0 where
  pub flow : Flow
  pub outcome : Outcome Usage

abbrev pub as_canonical : Option Failure → String → Failure
as_canonical none code = failure_of ErrorKind.provider_permanent code
as_canonical (some e) code = e

abbrev misconfigured : String → Failure
misconfigured code = failure_of ErrorKind.provider_configuration code

unfoldable pub build_upstream : Build → Option Failure
build_upstream b =
    if not b.adapter_valid
    then some (misconfigured "adapter_configuration")
    else if not b.secret_available
    then some (misconfigured "credential_decryption_failed")
    else elim b.request_error [
      | some e ↦ some (as_canonical e "provider_request_invalid")
      | none ↦
          if not b.client_valid then some (misconfigured "provider_transport_invalid") else none
    ]

-- Whether `readResponse` succeeds.
abbrev pub read_response : ℕ → Body → Bool
read_response limit unreadable = false
read_response limit (of_length n) = leb n limit

abbrev quarter : ℕ → ℕ
quarter bytes = (bytes + 3) / 4

abbrev reasoning_tokens : Option (List ℕ) → ℕ
reasoning_tokens none = 0
reasoning_tokens (some text) = quarter (length text)

abbrev call_tokens : ToolCall → ℕ
call_tokens c = quarter (length c.function.name + length c.function.arguments)

abbrev message_tokens : Message → ℕ
message_tokens m =
    sum_of (λ part. quarter (length part.text)) m.content
    + reasoning_tokens m.reasoning
    + sum_of call_tokens m.tool_calls

abbrev given_or : Option ℤ → ℤ → ℤ
given_or none n = n
given_or (some m) n = m

abbrev reported_or : Option ReportedUsage → Usage → Usage
reported_or none u = u
reported_or (some r) u = record {
  input_tokens = given_or r.input_tokens u.input_tokens;
  output_tokens = given_or r.output_tokens u.output_tokens;
  source = r.source;
}

unfoldable pub response_usage : ChatRequest → ChatResponse → Usage
response_usage request r = reported_or r.usage (record {
  input_tokens = pos (estimate_input_tokens request);
  output_tokens = pos (sum_of message_tokens r.choices);
  source = estimated;
})

abbrev is_authoritative : UsageSource → Bool
is_authoritative authoritative = true
is_authoritative _ = false

-- The tokens that the lease is told of, where it is told.
unfoldable pub refund : ℤ → Usage → Option ℤ
refund estimate u =
    let actual = add64 u.input_tokens u.output_tokens in
    if not (is_authoritative u.source) || less_int estimate (pos 1)
    then none
    else if less_int actual (pos 0) || not (less_int actual estimate)
    then none
    else some actual

unfoldable pub reconcile_lease : ℤ → Usage → Flow → Flow
reconcile_lease estimate u f = elim (refund estimate u) [
  | none ↦ f
  | some actual ↦ after (lease_reconciled actual) f
]

module _ (p : Pool) (u : Upstream) (config : Config) (run : Run) (c : Candidate) where
  abbrev pub fails : Flow → Failure → Attempted
  fails f e = record { flow = f; outcome = failed e }

  unfoldable pub fail_attempt : Failure → Flow → Flow
  fail_attempt e f =
      let at = p.now f.tick in
      after
        (attempt_failed e (credential_failure config.open_duration e at false c.health_generation))
        (called f)

  abbrev pub uncertain_error : ℕ → Failure
  uncertain_error now = record (failure_of ErrorKind.uncertain "upstream_outcome_uncertain") {
    retry_after = some (at_time (now + config.open_duration));
  }

  abbrev pub uncertain_saving : Saved → Failure → Failure
  uncertain_saving saved e = e
  uncertain_saving fenced e = e
  uncertain_saving not_saved e = storage_error "uncertain_state_failed"

  unfoldable pub mark_uncertain : Flow → Attempted
  mark_uncertain f =
      let e = uncertain_error (p.now f.tick) in
      let at = p.now (suc f.tick) in
      let g = called (called f) in
      fails
        (after
          (outcome_uncertain
            (credential_failure config.open_duration e at (u.canceled g.tick) c.health_generation))
          g)
        (uncertain_saving (u.uncertain_saved g.tick) e)

  -- A status outside of 200 to 299.
  unfoldable pub refused_by : ℕ → Flow → Attempted
  refused_by status f =
      let e = u.classify f.tick status in
      if leb 500 status && not e.replay_safe then mark_uncertain f else fails (fail_attempt e f) e

  -- After the accounting of the usage.
  abbrev pub answer : Bool → Usage → Flow → Attempted
  answer true usage f = record { flow = f; outcome = done usage }
  answer false usage f = fails f (storage_error "result_persistence_failed")

  unfoldable pub finish_attempt : Bool → Usage → Flow → Attempted
  finish_attempt stored usage f =
      let g = after (attempt_completed usage) f in
      let h = after (request_completed usage) g in
      if not (u.completed f.tick)
      then fails g (storage_error "attempt_completion_failed")
      else if not (u.accounted g.tick)
      then fails h (storage_error "usage_completion_failed")
      else answer stored usage (reconcile_lease run.estimated_tokens usage h)

  -- After the response was parsed.
  unfoldable pub complete_attempt : ChatResponse → Flow → Attempted
  complete_attempt r f =
      let usage = response_usage run.request r in
      elim u.sink [
        | none ↦ finish_attempt true usage (called f)
        | some stores ↦ finish_attempt (stores (suc f.tick)) usage (after result_stored (called f))
      ]

  unfoldable pub receive : Sent → Flow → Attempted
  receive no_response f = mark_uncertain f
  receive (response status body) f =
      if not (read_response config.max_response_bytes body)
      then mark_uncertain f
      else if ltb status 200 || ltb 299 status
      then refused_by status f
      else elim (u.parsed f.tick) [ none ↦ mark_uncertain f | some r ↦ complete_attempt r f ]

  -- From the built request on; the time of sending is read before.
  unfoldable pub send : Flow → Attempted
  send f =
      let g = after attempt_sending (called f) in
      if u.sending (suc f.tick)
      then receive (u.sent g.tick) (after request_sent g)
      else fails g (storage_error "attempt_state_failed")

  unfoldable pub work : ℕ → Flow → Attempted
  work sequence f =
      let g = after (attempt_created c.id sequence) f in
      if not (u.created f.tick)
      then fails g (storage_error "attempt_create_failed")
      else elim (build_upstream (u.build g.tick)) [
        | some e ↦ fails (fail_attempt e (called g)) e
        | none ↦ send (called g)
      ]

  -- The attempt with its deferred release of the lease.
  unfoldable pub non_stream_attempt : ℕ → Flow → Attempted
  non_stream_attempt sequence f =
      let a = work sequence f in record a { flow = after lease_released a.flow }
