-- ===== src/Requestflow/Candidates.antt =====
-- internal/requestflow/service.go: the choice of the candidate for an attempt, by routing, health
-- and capacity. The clock, the random source, the repository and the coordinator are parameters:
-- each answers by the number of calls made before. A UUID is a number, and its text is never empty,
-- so its routing ID is the successor. A time is a number, 0 the zero time.
use llm2api.Prelude.{
  ℕ, zero, suc, Bool, true, false, not, Option, none, some, List, [], ◌∷◌, ◌++◌, map, length, ℤ,
  pos, ◌==◌, if◌then◌else◌,
}
use llm2api.Routing.Types.{CandidateInput, Requirements, Random, Decision, Result, ok, err}
use llm2api.Routing.Router.{select}
use llm2api.Requestflow.Request.{
  ToolDefinition, ResponseFormat, format_text, ReasoningConfig, ChatRequest,
}
use llm2api.Requestflow.Failures.{
  ErrorKind, Failure, failure_of, at_time, AdmissionFailure, capacity_exhausted, admission_error,
  earlier_retry_at, value_or_now, circuit_unavailable_error, retry_after_at,
}
use llm2api.Requestflow.Effects.{Effect, lease_acquired}
pub mod Selected
pub mod Decisions

pub record Candidate : Type 0 where
  pub id : ℕ
  pub priority : ℤ
  pub weight : ℤ
  pub cooldown_until : Option ℕ
  pub health_generation : ℕ

-- The fields of a run that attempts read.
pub record Run : Type 0 where
  pub model_id : ℕ
  pub resource_pool_id : ℕ
  pub request : ChatRequest
  pub candidates : List Candidate
  pub estimated_tokens : ℤ

-- The state of a workflow: the number of outside calls so far, the IDs excluded, and the effects,
-- the latest first.
pub record Flow : Type 0 where
  pub tick : ℕ
  pub excluded : List ℕ
  pub effects : List Effect

abbrev pub called : Flow → Flow
called f = record f { tick = suc f.tick }

abbrev pub after : Effect → Flow → Flow
after e f = record { tick = suc f.tick; excluded = f.excluded; effects = e ∷ f.effects }

abbrev pub exclude : ℕ → Flow → Flow
exclude id f = record f { excluded = f.excluded ++ id ∷ [] }

pub data Acquired : Type 0 where
  granted : Acquired
  refused : AdmissionFailure → Acquired

-- What the clock, the random source, the health permits and the leases answer.
pub record Pool : Type 0 where
  pub now : ℕ → ℕ
  pub random : ℕ → Random
  pub health : ℕ → Candidate → Option ℕ
  pub acquire : ℕ → Candidate → Acquired

pub data Outcome {ℓ} (A : Type ℓ) : Type ℓ where
  done : A → Outcome A
  failed : Failure → Outcome A

abbrev capability_when : Bool → ℕ → List ℕ
capability_when true c = c ∷ []
capability_when false c = []

abbrev has_tools : List ToolDefinition → Bool
has_tools [] = false
has_tools (t ∷ ts) = true

abbrev is_given : Option ReasoningConfig → Bool
is_given none = false
is_given (some r) = true

abbrev is_structured : Option ResponseFormat → Bool
is_structured none = false
is_structured (some format_text) = false
is_structured (some _) = true

-- "chat", "streaming", "tools", "reasoning" and "structured_output" are 1 to 5.
abbrev pub required_capabilities : ChatRequest → List ℕ
required_capabilities r =
    1 ∷ capability_when r.stream 2
    ++ capability_when (has_tools r.tools) 3
    ++ capability_when (is_given r.reasoning) 4
    ++ capability_when (is_structured r.response_format) 5

abbrev pub routing_id : Candidate → ℕ
routing_id c = suc c.id

abbrev pub time_or_zero : Option ℕ → ℕ
time_or_zero none = 0
time_or_zero (some t) = t

abbrev pub route_candidate : Run → Candidate → CandidateInput
route_candidate run c = record {
  id = routing_id c;
  model_id = suc run.model_id;
  resource_pool_id = suc run.resource_pool_id;
  model_published = true;
  credential_authorized = true;
  credential_active = true;
  capabilities = required_capabilities run.request;
  cooldown_until = time_or_zero c.cooldown_until;
  priority = c.priority;
  weight = c.weight;
}

abbrev pub requirements : Run → List ℕ → ℕ → Requirements
requirements run excluded now = record {
  model_id = suc run.model_id;
  resource_pool_id = suc run.resource_pool_id;
  capabilities = required_capabilities run.request;
  excluded_candidates = excluded;
  at = now;
}

-- `byID[id]`: the last candidate with the ID.
unfoldable pub by_id : ℕ → List Candidate → Option Candidate
by_id id [] = none
by_id id (c ∷ cs) = elim (by_id id cs) [
  | some d ↦ some d
  | none ↦ if routing_id c == id then some c else none
]

abbrev pool_unavailable : Failure
pool_unavailable = failure_of ErrorKind.provider_temporary "resource_pool_unavailable"

abbrev pub unavailable : ℕ → Failure
unavailable at =
    if at == 0
    then pool_unavailable
    else record pool_unavailable { retry_after = some (at_time at) }

abbrev pub routing_failed : Failure
routing_failed = failure_of ErrorKind.internal_invariant "routing_failed"

abbrev no_candidate : Candidate
no_candidate = record {
  id = 0;
  priority = pos 0;
  weight = pos 0;
  cooldown_until = none;
  health_generation = 0;
}

-- A missing key gives the zero value.
abbrev pub value_of : Option Candidate → Candidate
value_of none = no_candidate
value_of (some c) = c

unfoldable pub selected : Run → Result Decision → Outcome Candidate
selected run (err e) = failed routing_failed
selected run (ok d) =
    if d.selected_candidate_id == 0
    then failed (unavailable d.next_available_at)
    else done (value_of (by_id d.selected_candidate_id run.candidates))

unfoldable pub select_candidate : Run → List ℕ → ℕ → Random → Outcome Candidate
select_candidate run excluded now random =
    selected run
      (select random (requirements run excluded now) (map (route_candidate run) run.candidates))

-- What `candidateDecision` returns: a candidate or an error.
pub record Decided : Type 0 where
  pub flow : Flow
  pub outcome : Outcome Candidate

unfoldable pub no_health : Bool → Option ℕ → Failure → ℕ → Failure
no_health false earliest e now = e
no_health true earliest e now =
    circuit_unavailable_error (earlier_retry_at earliest (retry_after_at e.retry_after now))

-- The loop of `candidateDecision`; `none` is the end of the fuel.
unfoldable pub candidate_decision : Pool → Run → ℕ → Bool → List ℕ → Flow → Option Decided
candidate_decision p run zero unhealthy without f = none
candidate_decision p run (suc fuel) unhealthy without f =
    elim (select_candidate run without (p.now f.tick) (p.random f.tick)) [
      | failed e ↦ some (record {
        flow = called f;
        outcome = failed (no_health unhealthy none e (p.now (suc f.tick)));
      })
      | done c ↦ elim (p.health (suc f.tick) c) [
        | some generation ↦ some (record {
          flow = called (called f);
          outcome = done (record c { health_generation = generation });
        })
        | none ↦
            candidate_decision p run fuel true (without ++ routing_id c ∷ [])
              (exclude (routing_id c) (called (called f)))
      ]
    ]

-- errors.As for a *CapacityError
abbrev pub capacity_of : AdmissionFailure → Option ℕ
capacity_of (capacity_exhausted at) = some at
capacity_of _ = none

abbrev pub enough : Run → ℕ
enough run = suc (length run.candidates)

unfoldable pub no_capacity : Bool → Option ℕ → Failure → ℕ → Failure
no_capacity false earliest e now = e
no_capacity true earliest e now = admission_error (capacity_exhausted (value_or_now earliest now))

-- The loop of `attemptDecision`, with the fuel of its own rounds; the candidate returned holds a
-- lease.
unfoldable pub attempt_decision : Pool → Run → ℕ → Option ℕ → Bool → Flow → Option Decided
attempt_decision p run zero earliest full f = none
attempt_decision p run (suc fuel) earliest full f =
    elim (candidate_decision p run (enough run) false f.excluded f) [
      | none ↦ none
      | some d ↦ elim d.outcome [
        | failed e ↦ some (record {
          flow = called d.flow;
          outcome = failed (no_capacity full earliest e (p.now d.flow.tick));
        })
        | done c ↦ elim (p.acquire d.flow.tick c) [
          | granted ↦ some (record { flow = after lease_acquired d.flow; outcome = done c })
          | refused e ↦ elim (capacity_of e) [
            | some at ↦
                attempt_decision p run fuel (earlier_retry_at earliest (some at)) true
                  (exclude (routing_id c) (called d.flow))
            | none ↦ some (record { flow = called d.flow; outcome = failed (admission_error e) })
          ]
        ]
      ]
    ]
