-- ===== src/Requestflow/Tests/Workflow.antt =====
-- The request workflow at concrete inputs: two credentials, of which the first has no capacity; the
-- provider rejects the first request of the second credential and answers the next one.
use llm2api.Prelude.{
  ℕ, ◌+◌, ◌≡◌, ◌↔◌, refl, true, false, none, some, [], ◌∷◌, pos, arith, ltb, ◌==◌, if◌then◌else◌,
}
use llm2api.Resilience.Retry.{RetryPolicy}
use llm2api.Requestflow.Estimate.{
  estimate_tokens, estimate_input_tokens, input_bytes, message_bytes, sum_of,
}
use llm2api.Requestflow.Failures.{ErrorKind, capacity_exhausted}
use llm2api.Requestflow.Capabilities.{
  ParameterLimit, ReasoningMode, ModelCapabilities, validate_capabilities, first_of,
  first_rejection, check_tools, check_tool_choice, check_message, check_partial, check_reasoning,
  check_format, check_parameters,
}
use llm2api.Requestflow.Capabilities.Supported.{IsSupported}
use llm2api.Requestflow.Capabilities.Equivalence.{validate_capabilities-IsSupported}
use llm2api.Requestflow.Candidates.{Candidate, Run, granted, refused, Pool, done, enough}
use llm2api.Requestflow.Candidates.Decisions.{Attempting, attempt_decision_total}
use llm2api.Requestflow.Candidates.Selected.{remaining}
use llm2api.Requestflow.Attempt.{Config, response, of_length, saved, Upstream}
use llm2api.Requestflow.Chat.{Answered}
use llm2api.Requestflow.Prepare.{
  Model, Command, found, accepted, Intake, too_long, prepare, start, check_model, admit_request,
  accept_request, check_accepted, read_candidates, link_accepted, claim_execution, chat_request,
}
use llm2api.Requestflow.Prepare.Admission.{IsClean, chat_request-IsClean, prepare-IsSupported}
use llm2api.Requestflow.Tests.{request}

abbrev any : ParameterLimit
any = record { supported = true; minimum = some (pos 1); maximum = none; exact_values = [] }

abbrev capabilities : ModelCapabilities
capabilities = record {
  chat = true;
  streaming = true;
  tools = false;
  tool_choice_modes = [];
  strict_tools = false;
  parallel_tool_calls = false;
  tool_streaming = false;
  image_input = false;
  video_input = false;
  partial_mode = false;
  reasoning = false;
  reasoning_mode = ReasoningMode.other_mode;
  reasoning_always_on = false;
  reasoning_default_enabled = false;
  reasoning_preserve = false;
  reasoning_efforts = [];
  tool_choice_modes_with_reasoning = [];
  structured_output = false;
  json_schema_output = false;
  message_name = false;
  prompt_cache_key = false;
  safety_identifier = false;
  stream_usage = false;
  context_tokens = pos 4096;
  output_tokens = pos 1024;
  parameters = record {
    max_output_tokens = any;
    temperature = any;
    top_p = any;
    presence_penalty = any;
    frequency_penalty = any;
    n = any;
    top_k = any;
    thinking_budget = any;
    sampling_conditions = [];
  };
}

validate_capabilities-IsSupported_example :
    (validate_capabilities capabilities request ≡ none) ↔ IsSupported capabilities request
validate_capabilities-IsSupported_example = validate_capabilities-IsSupported capabilities request

abbrev credential : ℕ → Candidate
credential id = record {
  id = id;
  priority = pos 0;
  weight = pos 1;
  cooldown_until = none;
  health_generation = 0;
}

abbrev run : Run
run = record {
  model_id = 7;
  resource_pool_id = 9;
  request = request;
  candidates = credential 1 ∷ credential 2 ∷ [];
  estimated_tokens = pos 103;
}

abbrev pool : Pool
pool = record {
  now = λ tick. 1000 + tick;
  random = λ tick n. pos 0;
  health = λ tick c. some 1;
  acquire = λ tick c. if c.id == 1 then refused (capacity_exhausted 5000) else granted;
}

attempt_decision_total_example : Attempting pool run (enough run) none false start
unfolding remaining
attempt_decision_total_example =
    attempt_decision_total pool run (enough run) none false start (omega arith)

abbrev upstream : Upstream
upstream = record {
  created = λ tick. true;
  build = λ tick. record {
    adapter_valid = true;
    secret_available = true;
    request_error = none;
    client_valid = true;
  };
  sending = λ tick. true;
  sent = λ tick. response (if ltb tick 25 then 429 else 200) (of_length 20);
  classify = λ tick status. record {
    kind = ErrorKind.rate_limit;
    code = "rate_limited";
    http_status = some 429;
    retry_after = none;
    replay_safe = true;
  };
  parsed = λ tick. some (record { choices = []; usage = none });
  canceled = λ tick. false;
  uncertain_saved = λ tick. saved;
  sink = none;
  completed = λ tick. true;
  accounted = λ tick. true;
}

abbrev config : Config
config = record { open_duration = 500; max_response_bytes = 1000 }

abbrev policy : RetryPolicy
policy = record {
  max_attempts = 3;
  max_elapsed = 60000;
  backoff = record {
    initial = 10;
    maximum = 100;
    multiplier_numerator = 2;
    multiplier_denominator = 1;
    jitter_permille = 0;
  };
  random = none;
}

abbrev intake : Intake
intake = record {
  resolve = λ tick. found (record { id = 7; capabilities = capabilities });
  fresh = λ tick. 100 + tick;
  admit = λ tick. none;
  accept = λ tick. accepted (record { request_id = 3; resource_pool_id = 9; existing = false });
  candidates = λ tick. some (credential 1 ∷ credential 2 ∷ []);
  sink = none;
  claim = λ tick. true;
}

abbrev command : Command
command = record { request_id = 3; request = request }

chat_request-IsClean_example :
    (a : Answered) × (chat_request intake command pool upstream config policy ≡ some a)
    × IsClean a.flow.effects
chat_request-IsClean_example = chat_request-IsClean pool upstream config policy intake command

prepared : (prepare intake command start).outcome ≡ done run
unfolding prepare check_model validate_capabilities first_of first_rejection check_tools
    check_tool_choice check_message check_partial check_reasoning check_format check_parameters
    estimate_tokens estimate_input_tokens input_bytes message_bytes sum_of admit_request
    accept_request check_accepted read_candidates link_accepted claim_execution
prepared = refl

prepare-IsSupported_example :
    (m : Model) × (found (record { id = 7; capabilities = capabilities }) ≡ found m)
    × IsSupported m.capabilities request
    × (too_long m.capabilities (estimate_tokens request) ≡ false)
prepare-IsSupported_example = prepare-IsSupported intake command start run prepared
