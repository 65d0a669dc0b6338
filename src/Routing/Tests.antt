-- ===== src/Routing/Tests.antt =====
-- The theorems about routing at concrete inputs: two candidates of one priority and one behind.
use llm2api.Prelude.{
  ℕ, ◌+◌, ◌≤◌, ◌<◌, ◌-◌, ◌≡◌, refl, ◌↔◌, true, List, [], ◌∷◌, ℤ, pos, arith, Distinct,
}
use llm2api.Routing.Types.{
  ok, CandidateInput, Candidate, Requirements, Random, Decision, priority_weighted,
}
use llm2api.Routing.Eligibility.{
  evaluate_eligibility, missing, validate_requirements, validate_candidate, unique_capabilities,
  per_mille,
}
use llm2api.Routing.Eligibility.Eligible.{IsEligible, evaluate-IsEligible}
use llm2api.Routing.Router.{
  select, survey, survey_one, excluded_ids, choose_from, draw, pick, weighted_ids, total_weight,
  lowest_from, candidate_by_id, earlier, ids, weight_of,
}
use llm2api.Routing.Router.Loop.{validated}
use llm2api.Routing.Router.Weights.{pick-share}
use llm2api.Routing.Router.Selection.{Decided, select-Decided}
use llm2api.Routing.Router.Progress.{InRange, select_total}

abbrev offered : ℕ → ℤ → ℤ → CandidateInput
offered id priority weight = record {
  id = id;
  model_id = 5;
  resource_pool_id = 6;
  model_published = true;
  credential_authorized = true;
  credential_active = true;
  capabilities = 1 ∷ 2 ∷ [];
  cooldown_until = 0;
  priority = priority;
  weight = weight;
}

abbrev candidate : ℕ → ℕ → ℕ → Candidate
candidate id priority weight = record {
  id = id;
  model_id = 5;
  resource_pool_id = 6;
  model_published = true;
  credential_authorized = true;
  credential_active = true;
  capabilities = 1 ∷ 2 ∷ [];
  cooldown_until = 0;
  priority = priority;
  weight = weight;
}

abbrev requirements : Requirements
requirements = record {
  model_id = 5;
  resource_pool_id = 6;
  capabilities = 2 ∷ [];
  excluded_candidates = 9 ∷ [];
  at = 100;
}

abbrev inputs : List CandidateInput
inputs = offered 3 (pos 0) (pos 1) ∷ offered 2 (pos 10) (pos 2) ∷ offered 1 (pos 10) (pos 3) ∷ []

abbrev candidates : List Candidate
candidates = candidate 3 0 1 ∷ candidate 2 10 2 ∷ candidate 1 10 3 ∷ []

-- The largest number allowed.
abbrev last : Random
last n = pos (n - 1)

last-InRange : InRange last
last-InRange n h = (n - 1, refl, omega arith)

inputs-validated : validated inputs ≡ ok candidates
unfolding validated validate_candidate unique_capabilities per_mille
inputs-validated = refl

requirements_valid : validate_requirements requirements ≡ ok (2 ∷ [])
unfolding validate_requirements unique_capabilities
requirements_valid = refl

distinct : Distinct (ids candidates)
distinct = (refl, (refl, (refl, tt)))

select_total_example : (d : Decision) × (select last requirements inputs ≡ ok d)
select_total_example =
    select_total last requirements inputs (2 ∷ []) candidates last-InRange requirements_valid refl
      inputs-validated distinct

abbrev decision : Decision
decision = record {
  selected_candidate_id = 2;
  mode = priority_weighted;
  eligible = 1 ∷ 2 ∷ 3 ∷ [];
  evaluations =
      record { candidate_id = 3; eligible = true; exclusions = [] }
      ∷ record { candidate_id = 2; eligible = true; exclusions = [] }
      ∷ record { candidate_id = 1; eligible = true; exclusions = [] }
      ∷ [];
  next_available_at = 0;
}

-- Of the weights 3 and 2 the last number falls to the second ID.
selected : select last requirements inputs ≡ ok decision
unfolding select survey survey_one excluded_ids choose_from draw pick weighted_ids total_weight
    lowest_from candidate_by_id earlier evaluate_eligibility missing validate_requirements
    validate_candidate unique_capabilities per_mille
selected = refl

select-Decided_example :
    (cs : List Candidate) × (validated inputs ≡ ok cs)
    × Distinct (ids cs)
    × Decided requirements cs priority_weighted 2
select-Decided_example = select-Decided last requirements inputs decision selected

evaluate-IsEligible_example :
    (evaluate_eligibility requirements (candidate 1 10 3) (9 ∷ []) ≡ [])
    ↔ IsEligible requirements (9 ∷ []) (candidate 1 10 3)
evaluate-IsEligible_example = evaluate-IsEligible requirements (9 ∷ []) (candidate 1 10 3)

one_weighs : total_weight (1 ∷ []) candidates ≤ 3
unfolding total_weight candidate_by_id
one_weighs = omega arith

two_weighs : 3 < total_weight (1 ∷ []) candidates + weight_of 2 candidates
unfolding total_weight candidate_by_id
two_weighs = omega arith

pick-share_example : pick 3 (1 ∷ 2 ∷ []) candidates ≡ 2
pick-share_example = pick-share (1 ∷ []) [] 2 3 candidates one_weighs two_weighs
