-- ===== src/Requestflow/Prepare.antt =====
-- internal/requestflow/service.go: `prepare`, from the model's lookup to the claimed execution, and
-- the whole of `Chat` (internal/requestflow/chat.go) with it. A UUID is a number, 0 the nil one.
use llm2api.Prelude.{
  ℕ, zero, suc, Bool, true, false, ◌&&◌, ◌||◌, not, Option, none, some, String, List, [], ◌∷◌, ℤ,
  pos, ◌==◌, if◌then◌else◌, less_int,
}
use llm2api.Resilience.Retry.{RetryPolicy}
use llm2api.Requestflow.Request.{ChatRequest, Usage}
use llm2api.Requestflow.Estimate.{estimate_tokens}
use llm2api.Requestflow.Failures.{
  ErrorKind, Failure, failure_of, with_status, StateError, workflow_error, AdmissionFailure,
  admission_error, storage_error,
}
use llm2api.Requestflow.Effects.{
  Effect, admission_acquired, admission_released, request_accepted, accepted_failed,
  execution_claimed, result_stored,
}
use llm2api.Requestflow.Capabilities.{ModelCapabilities, rejection_error, validate_capabilities}
use llm2api.Requestflow.Candidates.{
  Candidate, Run, Flow, called, after, Pool, Outcome, done, failed,
}
use llm2api.Requestflow.Attempt.{Config, Upstream}
use llm2api.Requestflow.Chat.{Answered, chat}
pub mod Admission

pub record Model : Type 0 where
  pub id : ℕ
  pub capabilities : ModelCapabilities

pub record Command : Type 0 where
  pub request_id : ℕ
  pub request : ChatRequest

pub data Resolved : Type 0 where
  found : Model → Resolved
  unresolved : StateError → Resolved

pub record Accepted : Type 0 where
  pub request_id : ℕ
  pub resource_pool_id : ℕ
  pub existing : Bool

pub data Acceptance : Type 0 where
  accepted : Accepted → Acceptance
  not_accepted : StateError → Acceptance

-- What the repository, the admitter, the accounting and the caller's sink answer.
pub record Intake : Type 0 where
  pub resolve : ℕ → Resolved
  pub fresh : ℕ → ℕ
  pub admit : ℕ → Option AdmissionFailure
  pub accept : ℕ → Acceptance
  pub candidates : ℕ → Option (List Candidate)
  pub sink : Option (ℕ → Bool)
  pub claim : ℕ → Bool

pub record Prepared : Type 0 where
  pub flow : Flow
  pub outcome : Outcome Run

abbrev pub refuse : Failure → Flow → Prepared
refuse e f = record { flow = f; outcome = failed e }

-- releaseAdmission and FailAccepted
abbrev pub refuse_accepted : String → Failure → Flow → Prepared
refuse_accepted code e f = refuse e (after (accepted_failed code) (after admission_released f))

abbrev pub too_long : ModelCapabilities → ℤ → Bool
too_long m tokens = less_int (pos 0) m.context_tokens && less_int m.context_tokens tokens

abbrev no_pool : Failure
no_pool = failure_of ErrorKind.provider_temporary "resource_pool_unavailable"

module _ (i : Intake) (command : Command) where
  abbrev pub request_id_from : ℕ → ℕ
  request_id_from tick = if command.request_id == 0 then i.fresh tick else command.request_id

  unfoldable pub claim_execution : Run → Flow → Prepared
  claim_execution run f =
      if i.claim f.tick
      then record { flow = after execution_claimed f; outcome = done run }
      else refuse_accepted "execution_claim_failed" (storage_error "execution_claim_failed")
          (called f)

  unfoldable pub link_accepted : Run → Flow → Prepared
  link_accepted run f = elim i.sink [
    | none ↦ claim_execution run f
    | some stores ↦
        if stores f.tick
        then claim_execution run (after result_stored f)
        else refuse_accepted "acceptance_persistence_failed"
            (storage_error "acceptance_persistence_failed") (after result_stored f)
  ]

  unfoldable pub read_candidates : Model → Accepted → Flow → Prepared
  read_candidates m a f = elim (i.candidates f.tick) [
    | none ↦
        refuse_accepted "candidate_lookup_failed" (storage_error "candidate_lookup_failed")
          (called f)
    | some [] ↦ refuse_accepted "resource_pool_unavailable" no_pool (called f)
    | some (c ∷ cs) ↦
        link_accepted
          (record {
            model_id = m.id;
            resource_pool_id = a.resource_pool_id;
            request = command.request;
            candidates = c ∷ cs;
            estimated_tokens = estimate_tokens command.request;
          })
          (called f)
  ]

  abbrev invalid_acceptance : Failure
  invalid_acceptance = failure_of ErrorKind.internal_invariant "invalid_acceptance"

  unfoldable pub check_accepted : Model → ℕ → Accepted → Flow → Prepared
  check_accepted m id a f =
      if a.existing
      then refuse (with_status ErrorKind.invalid_request "request_already_accepted" 409)
          (after admission_released f)
      else if not (a.request_id == id) || a.resource_pool_id == 0
      then (if not (a.request_id == 0)
          then refuse_accepted "invalid_acceptance" invalid_acceptance f
          else refuse invalid_acceptance (after admission_released f))
      else read_candidates m a f

  unfoldable pub accept_request : Model → ℕ → Flow → Prepared
  accept_request m id f = elim (i.accept f.tick) [
    | not_accepted e ↦ refuse (workflow_error e) (after admission_released (called f))
    | accepted a ↦ check_accepted m id a (after request_accepted f)
  ]

  unfoldable pub admit_request : Model → Flow → Prepared
  admit_request m f =
      let id = request_id_from f.tick in
      elim (i.admit (suc f.tick)) [
        | some e ↦ refuse (admission_error e) (called (called f))
        | none ↦ accept_request m id (after admission_acquired (called f))
      ]

  unfoldable pub check_model : Model → Flow → Prepared
  check_model m f = elim (validate_capabilities m.capabilities command.request) [
    | some r ↦ refuse (rejection_error r) f
    | none ↦
        if too_long m.capabilities (estimate_tokens command.request)
        then refuse (with_status ErrorKind.invalid_request "context_length_exceeded" 400) f
        else admit_request m f
  ]

  abbrev pub prepare_with : Flow → Resolved → Prepared
  prepare_with f (unresolved e) = refuse (workflow_error e) (called f)
  prepare_with f (found m) = check_model m (called f)

  unfoldable pub prepare : Flow → Prepared
  prepare f = prepare_with f (i.resolve f.tick)

-- `Chat` from the start.
abbrev pub start : Flow
start = record { tick = 0; excluded = []; effects = [] }

unfoldable pub chat_from :
    Pool → Upstream → Config → RetryPolicy → Flow → Outcome Run → Option Answered
chat_from p u config retry f (failed e) = some (record { flow = f; outcome = failed e })
chat_from p u config retry f (done run) = chat p u config retry run f

unfoldable pub chat_request :
    Intake → Command → Pool → Upstream → Config → RetryPolicy → Option Answered
chat_request i command p u config retry =
    let prepared = prepare i command start in
    chat_from p u config retry prepared.flow prepared.outcome
