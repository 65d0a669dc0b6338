-- ===== src/Requestflow/Effects.antt =====
-- internal/requestflow/chat.go and service.go: the calls by which a workflow changes something
-- outside of it, and what a sequence of them can satisfy. Sequences have the latest call first.
use llm2api.Prelude.{ℕ, Bool, true, false, ◌&&◌, not, Option, String, List, [], ◌∷◌, ℤ}
use llm2api.Requestflow.Failures.{Failure, CredentialObservation}
use llm2api.Requestflow.Request.{Usage}

-- An acquisition stands where it succeeded, any other call where it was made.
pub data Effect : Type 0 where
  admission_acquired admission_released execution_claimed execution_stopped : Effect
  request_accepted result_stored lease_acquired lease_released attempt_sending : Effect
  request_sent : Effect
  accepted_failed request_failed : String → Effect
  attempt_created : (candidate sequence : ℕ) → Effect
  attempt_failed : Failure → Option CredentialObservation → Effect
  outcome_uncertain : Option CredentialObservation → Effect
  attempt_completed request_completed : Usage → Effect
  lease_reconciled : ℤ → Effect
  waited_until : ℕ → Effect

-- No request is out whose attempt was not recorded as failed: the last one sent was rejected.
abbrev pub settled : List Effect → Bool
settled [] = true
settled (request_sent ∷ es) = false
settled (attempt_failed e o ∷ es) = true
settled (e ∷ es) = settled es

-- Each request is sent when the ones before it are settled.
abbrev pub careful : List Effect → Bool
careful [] = true
careful (request_sent ∷ es) = settled es && careful es
careful (e ∷ es) = careful es

pub data Mark : Type 0 where
  opens closes neither : Mark

abbrev pub lease_mark : Effect → Mark
lease_mark lease_acquired = opens
lease_mark lease_released = closes
lease_mark _ = neither

abbrev pub admission_mark : Effect → Mark
admission_mark admission_acquired = opens
admission_mark admission_released = closes
admission_mark _ = neither

-- Openings and closings alternate, from an opening on; whether one is open at the end is given.
abbrev pub alternates_from : Mark → Bool → (Bool → Bool) → Bool
alternates_from opens open? before = open? && before false
alternates_from closes open? before = not open? && before true
alternates_from neither open? before = before open?

unfoldable pub alternates : (Effect → Mark) → List Effect → Bool → Bool
alternates mark [] open? = not open?
alternates mark (e ∷ es) open? = alternates_from (mark e) open? (alternates mark es)
