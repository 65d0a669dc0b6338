-- ===== src/Routing/Eligibility.antt =====
-- internal/routing/eligibility.go: the validation of a request's requirements and of a candidate,
-- and the reasons that exclude a candidate.
use llm2api.Prelude.{
  ℕ, zero, suc, Bool, true, false, ◌&&◌, ◌||◌, not, List, [], ◌∷◌, ◌++◌, ℤ, pos, negsuc, ltb, leb,
  ◌==◌, if◌then◌else◌, has,
}
use llm2api.Routing.Types.{
  ErrorKind, invalid_input, invalid_candidate, Result, ok, err, ◌>>=◌, CandidateInput, Candidate,
  Requirements, ExclusionReason, model_not_published, model_mismatch, resource_pool_mismatch,
  missing_capability, credential_unauthorized, credential_inactive, credential_cooling,
  excluded_for_attempt, Exclusion,
}
pub mod Eligible

abbrev pub plain : ExclusionReason → Exclusion
plain r = record { reason = r; capability = 0; available_at = 0 }

-- if test { reasons = append(reasons, e) }
abbrev pub when : Bool → Exclusion → List Exclusion
when true e = e ∷ []
when false e = []

-- The last loop: the required capabilities that the candidate lacks.
unfoldable pub missing : List ℕ → List ℕ → List Exclusion
missing [] held = []
missing (c ∷ cs) held =
    when (not (has c held))
      (record { reason = missing_capability; capability = c; available_at = 0 })
    ++ missing cs held

unfoldable pub evaluate_eligibility : Requirements → Candidate → List ℕ → List Exclusion
evaluate_eligibility r c excluded =
    when (not c.model_published) (plain model_not_published)
    ++ when (not (c.model_id == r.model_id)) (plain model_mismatch)
    ++ when (not (c.resource_pool_id == r.resource_pool_id)) (plain resource_pool_mismatch)
    ++ when (not c.credential_authorized) (plain credential_unauthorized)
    ++ when (not c.credential_active) (plain credential_inactive)
    ++ when (not (c.cooldown_until == 0) && ltb r.at c.cooldown_until)
        (record { reason = credential_cooling; capability = 0; available_at = c.cooldown_until })
    ++ when (has c.id excluded) (plain excluded_for_attempt)
    ++ missing r.capabilities c.capabilities

-- The loop over capabilities: none is empty and none occurs twice.
unfoldable pub unique_capabilities : ErrorKind → List ℕ → List ℕ → Result (List ℕ)
unique_capabilities e [] seen = ok seen
unique_capabilities e (c ∷ cs) seen =
    let rest = unique_capabilities e cs (c ∷ seen) in
    if c == 0 then err e else if has c seen then err e else rest

unfoldable pub validate_requirements : Requirements → Result (List ℕ)
validate_requirements r =
    if r.model_id == 0 || r.resource_pool_id == 0 || r.at == 0
    then err invalid_input
    else unique_capabilities invalid_input r.capabilities []

-- An int32 between 0 and 1000.
unfoldable pub per_mille : ℤ → Result ℕ
per_mille (negsuc n) = err invalid_candidate
per_mille (pos n) = if ltb 1000 n then err invalid_candidate else ok n

unfoldable pub validate_candidate : CandidateInput → Result Candidate
validate_candidate c =
    if c.id == 0 || c.model_id == 0 || c.resource_pool_id == 0 then err invalid_candidate else (do
      priority ← per_mille c.priority
      weight ← per_mille c.weight
      unique ← unique_capabilities invalid_candidate c.capabilities []
      ok (record {
        id = c.id;
        model_id = c.model_id;
        resource_pool_id = c.resource_pool_id;
        model_published = c.model_published;
        credential_authorized = c.credential_authorized;
        credential_active = c.credential_active;
        capabilities = c.capabilities;
        cooldown_until = c.cooldown_until;
        priority = priority;
        weight = weight;
      }))
