-- ===== src/Requestflow/Tests.antt =====
-- The request workflow's helpers at concrete inputs.
use llm2api.Prelude.{
  ℕ, ◌+◌, ◌*◌, ◌≤◌, ◌≡◌, none, some, false, max, List, [], ◌∷◌, length, pos, arith, ◌==◌,
  if◌then◌else◌,
}
use llm2api.Requestflow.Request.{ChatRequest, ContentPartType, Role}
use llm2api.Requestflow.Estimate.{
  StreamEvent, input_bytes, output_bytes, estimate_input_tokens, estimated_output_tokens,
  estimates_round_up,
}
use llm2api.Requestflow.Recovery.{
  CallResult, done, fenced, failed, RecoveryResult, recovered, recover_once, Accounts,
  recover_once-Accounts,
}
mod Limits
mod Workflow

abbrev pub request : ChatRequest
request = record {
  messages =
      record {
        role = Role.other_role;
        name = 0;
        content = record { part_type = ContentPartType.text_part; text = 104 ∷ 105 ∷ [] } ∷ [];
        partial = false;
        tool_calls = [];
        reasoning = none;
      }
      ∷ [];
  tools = [];
  tool_choice = none;
  parallel_tool_calls = none;
  stream = false;
  stream_usage = none;
  max_output_tokens = some (pos 100);
  n = none;
  temperature = none;
  top_p = none;
  top_k = none;
  presence_penalty = none;
  frequency_penalty = none;
  thinking_budget = none;
  response_format = none;
  reasoning = none;
  prompt_cache_key = 0;
  safety_identifier = 0;
}

abbrev events : List StreamEvent
events =
    record { content_delta = 111 ∷ 107 ∷ []; reasoning_delta = []; tool_call_delta = none } ∷ []

estimates_round_up_example :
    ((1 ≤ estimate_input_tokens request)
      × (input_bytes request ≤ 4 * estimate_input_tokens request)
      × (4 * estimate_input_tokens request ≤ max 4 (input_bytes request + 3)))
    × ((output_bytes events ≤ 4 * estimated_output_tokens events)
        × (4 * estimated_output_tokens events ≤ output_bytes events + 3))
estimates_round_up_example = estimates_round_up request events

-- The second claim is fenced and the third fails.
abbrev answers : ℕ → CallResult
answers id = if id == 2 then fenced else if id == 3 then failed else done

abbrev claims : List ℕ
claims = 1 ∷ 2 ∷ 3 ∷ []

abbrev requests : List ℕ
requests = 1 ∷ []

recover_once-Accounts_example :
    (r : RecoveryResult) × (e : ℕ) × (recover_once answers answers 4 false 100
        (pos 10)
        (some claims)
        (some requests)
      ≡ recovered r e)
    × Accounts answers answers claims requests 4 false r e
recover_once-Accounts_example =
    recover_once-Accounts answers answers 4 false 100 10 claims requests (omega arith) (omega arith)
      (omega arith)
