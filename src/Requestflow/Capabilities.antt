-- ===== src/Requestflow/Capabilities.antt =====
-- internal/requestflow/service.go: `validateCapabilities`, which refuses what the model's
-- capabilities (internal/registry/types.go, internal/providers/capabilities.go) do not cover. A
-- rejection keeps the capability or the code; the rest of its error describes the parameter.
use llm2api.Prelude.{
  ℕ, zero, suc, Bool, true, false, ◌&&◌, ◌||◌, not, Option, none, some, String, List, [], ◌∷◌, ℤ,
  pos, ◌==◌, has, less_int, same_int, if◌then◌else◌,
}
use llm2api.Requestflow.Request.{
  ContentPartType, image_url, video_url, ContentPart, Role, assistant, Message, ToolDefinition,
  ResponseFormat, json_object, json_schema, ReasoningConfig, ChatRequest,
}
use llm2api.Requestflow.Failures.{ErrorKind, Failure, with_status}
pub mod Supported
pub mod Checks
pub mod Limits
pub mod Messages
pub mod Tools
pub mod Conditions
pub mod Sampling
pub mod Equivalence

pub record ParameterLimit : Type 0 where
  pub supported : Bool
  pub minimum : Option ℤ
  pub maximum : Option ℤ
  pub exact_values : List ℤ

pub record SamplingCondition : Type 0 where
  pub thinking_enabled : Option Bool
  pub temperature_exact : Option ℤ
  pub temperature_at_most : Option ℤ
  pub n_maximum : Option ℤ

pub record ParameterCapabilities : Type 0 where
  pub max_output_tokens : ParameterLimit
  pub temperature : ParameterLimit
  pub top_p : ParameterLimit
  pub presence_penalty : ParameterLimit
  pub frequency_penalty : ParameterLimit
  pub n : ParameterLimit
  pub top_k : ParameterLimit
  pub thinking_budget : ParameterLimit
  pub sampling_conditions : List SamplingCondition

pub data ReasoningMode : Type 0 where
  toggle hybrid always_on other_mode : ReasoningMode

pub record ModelCapabilities : Type 0 where
  pub chat : Bool
  pub streaming : Bool
  pub tools : Bool
  pub tool_choice_modes : List ℕ
  pub strict_tools : Bool
  pub parallel_tool_calls : Bool
  pub tool_streaming : Bool
  pub image_input : Bool
  pub video_input : Bool
  pub partial_mode : Bool
  pub reasoning : Bool
  pub reasoning_mode : ReasoningMode
  pub reasoning_always_on : Bool
  pub reasoning_default_enabled : Bool
  pub reasoning_preserve : Bool
  pub reasoning_efforts : List ℕ
  pub tool_choice_modes_with_reasoning : List ℕ
  pub structured_output : Bool
  pub json_schema_output : Bool
  pub message_name : Bool
  pub prompt_cache_key : Bool
  pub safety_identifier : Bool
  pub stream_usage : Bool
  pub context_tokens : ℤ
  pub output_tokens : ℤ
  pub parameters : ParameterCapabilities

-- `unsupported` names the capability, `invalid` the code of an invalid request.
pub data Rejection : Type 0 where
  unsupported invalid : String → Rejection

abbrev pub rejection_error : Rejection → Failure
rejection_error (unsupported capability) =
    with_status ErrorKind.unsupported_capability "model_capability_unsupported" 400
rejection_error (invalid code) = with_status ErrorKind.invalid_request code 400

-- if test { return rejection }
abbrev pub reject_if : Bool → Rejection → Option Rejection
reject_if true r = some r
reject_if false r = none

-- Checks one after the other.
infixr 4 ◌then_check◌
abbrev pub ◌then_check◌ : Option Rejection → Option Rejection → Option Rejection
(some r) then_check rest = some r
none then_check rest = rest

-- Many checks one after the other.
unfoldable pub first_of : List (Option Rejection) → Option Rejection
first_of [] = none
first_of (check ∷ checks) = check then_check first_of checks

-- The loop that returns the first rejection.
unfoldable pub first_rejection : {A : Type 0} → (A → Option Rejection) → List A → Option Rejection
first_rejection check [] = none
first_rejection check (x ∷ xs) = check x then_check first_rejection check xs

abbrev pub is_given : {A : Type 0} → Option A → Bool
is_given none = false
is_given (some a) = true

abbrev pub is_true : Option Bool → Bool
is_true none = false
is_true (some b) = b

abbrev pub is_false : Option Bool → Bool
is_false none = false
is_false (some b) = not b

abbrev pub is_empty : {A : Type 0} → List A → Bool
is_empty [] = true
is_empty (x ∷ xs) = false

abbrev pub enabled_or : Bool → Option ReasoningConfig → Bool
enabled_or default none = default
enabled_or default (some r) = elim r.enabled [ none ↦ default | some b ↦ b ]

abbrev pub reasoning_enabled_for_model : ModelCapabilities → ChatRequest → Bool
reasoning_enabled_for_model m r =
    enabled_or (m.reasoning_always_on || m.reasoning_default_enabled) r.reasoning

abbrev pub below : Option ℤ → ℤ → Bool
below none v = false
below (some low) v = less_int v low

abbrev pub above : Option ℤ → ℤ → Bool
above none v = false
above (some high) v = less_int high v

unfoldable pub contains_parameter : List ℤ → ℤ → Bool
contains_parameter [] v = false
contains_parameter (x ∷ xs) v = same_int x v || contains_parameter xs v

abbrev pub outside : ParameterLimit → ℤ → Bool
outside limit v =
    below limit.minimum v
    || (above limit.maximum v
        || (not (is_empty limit.exact_values) && not (contains_parameter limit.exact_values v)))

abbrev pub parameter_invalid : Rejection
parameter_invalid = invalid "model_parameter_invalid"

abbrev pub validate_integer_parameter : String → Option ℤ → ParameterLimit → Option Rejection
validate_integer_parameter capability none limit = none
validate_integer_parameter capability (some v) limit =
    reject_if (not limit.supported) (unsupported capability)
    then_check reject_if (outside limit v) parameter_invalid

-- The same code on float64.
abbrev pub validate_number_parameter : String → Option ℤ → ParameterLimit → Option Rejection
validate_number_parameter = validate_integer_parameter

unfoldable pub check_tools : ModelCapabilities → ChatRequest → Option Rejection
check_tools m r =
    reject_if (not (is_empty r.tools) && not m.tools) (unsupported "tools.function_calling")
    then_check first_rejection
        (λ (t : ToolDefinition).
          reject_if (is_given t.strict && not m.strict_tools) (unsupported "tools.strict_schema"))
        r.tools

unfoldable pub check_tool_choice : ModelCapabilities → ChatRequest → Option ℕ → Option Rejection
check_tool_choice m r none = none
check_tool_choice m r (some mode) =
    reject_if (not (has mode m.tool_choice_modes)) (unsupported "tools.tool_choice")
    then_check reject_if
        (not (is_empty m.tool_choice_modes_with_reasoning)
          && reasoning_enabled_for_model m r
          && not (has mode m.tool_choice_modes_with_reasoning))
        (invalid "tool_choice_with_thinking")

abbrev pub is_image : ContentPartType → Bool
is_image image_url = true
is_image _ = false

abbrev pub is_video : ContentPartType → Bool
is_video video_url = true
is_video _ = false

unfoldable pub check_message : ModelCapabilities → Message → Option Rejection
check_message m message =
    reject_if (not (message.name == 0) && not m.message_name) (unsupported "messages.name")
    then_check first_rejection
        (λ (part : ContentPart).
          reject_if (is_image part.part_type && not m.image_input) (unsupported "vision.image_url")
          then_check reject_if (is_video part.part_type && not m.video_input)
              (unsupported "vision.video_url"))
        message.content

abbrev pub is_assistant : Role → Bool
is_assistant assistant = true
is_assistant _ = false

-- The loop over messages; one is the last where none follows.
unfoldable pub check_partial : ModelCapabilities → List Message → Option Rejection
check_partial m [] = none
check_partial m (message ∷ messages) =
    reject_if (message.partial && not m.partial_mode) (unsupported "extensions.partial_mode")
    then_check reject_if
        (message.partial && (not (is_assistant message.role) || not (is_empty messages)))
        (invalid "invalid_partial_mode")
    then_check check_partial m messages

abbrev pub can_toggle : ReasoningMode → Bool
can_toggle ReasoningMode.other_mode = false
can_toggle _ = true

unfoldable pub check_reasoning : ModelCapabilities → Option ReasoningConfig → Option Rejection
check_reasoning m none = none
check_reasoning m (some c) = first_of (
    reject_if (not m.reasoning) (unsupported "reasoning")
    ∷ (reject_if (is_given c.enabled && not (can_toggle m.reasoning_mode))
        (unsupported "reasoning.toggle"))
    ∷ (reject_if (m.reasoning_always_on && is_false c.enabled) (unsupported "reasoning.always_on"))
    ∷ (reject_if (not (c.effort == 0) && not (has c.effort m.reasoning_efforts))
        (unsupported "reasoning.effort"))
    ∷ (reject_if (is_given c.preserve && not m.reasoning_preserve)
        (unsupported "reasoning.preserve"))
    ∷ (reject_if (m.reasoning_always_on && is_false c.preserve) (unsupported "reasoning.preserve"))
    ∷ [])

unfoldable pub check_format : ModelCapabilities → Option ResponseFormat → Option Rejection
check_format m (some json_object) =
    reject_if (not m.structured_output) (unsupported "structured_output.json_object")
check_format m (some json_schema) =
    reject_if (not m.json_schema_output) (unsupported "structured_output.json_schema")
check_format m _ = none

abbrev pub exceeds : Option ℤ → ℤ → Bool
exceeds none limit = false
exceeds (some v) limit = less_int limit v

unfoldable pub check_parameters : ParameterCapabilities → ChatRequest → Option Rejection
check_parameters p r = first_of (
    validate_integer_parameter "parameters.max_completion_tokens" r.max_output_tokens
      p.max_output_tokens
    ∷ (validate_integer_parameter "parameters.n" r.n p.n)
    ∷ (validate_number_parameter "parameters.temperature" r.temperature p.temperature)
    ∷ (validate_number_parameter "parameters.top_p" r.top_p p.top_p)
    ∷ (validate_number_parameter "parameters.top_k" r.top_k p.top_k)
    ∷ (validate_number_parameter "parameters.presence_penalty" r.presence_penalty
        p.presence_penalty)
    ∷ (validate_number_parameter "parameters.frequency_penalty" r.frequency_penalty
        p.frequency_penalty)
    ∷ (validate_integer_parameter "parameters.thinking_budget" r.thinking_budget p.thinking_budget)
    ∷ [])

abbrev pub differs : Option ℤ → Option ℤ → Bool
differs (some exact) (some v) = not (same_int v exact)
differs _ _ = false

abbrev pub at_most : Option ℤ → Option ℤ → Bool
at_most (some limit) (some v) = not (less_int limit v)
at_most _ _ = false

abbrev pub more_than : Option ℤ → Option ℤ → Bool
more_than (some limit) (some v) = less_int limit v
more_than _ _ = false

abbrev pub applies : Option Bool → Bool → Bool
applies none enabled = true
applies (some b) enabled = if b then enabled else not enabled

unfoldable pub check_sampling : Bool → ChatRequest → SamplingCondition → Option Rejection
check_sampling enabled r c =
    reject_if (applies c.thinking_enabled enabled && differs c.temperature_exact r.temperature)
      parameter_invalid
    then_check reject_if
        (applies c.thinking_enabled enabled
          && at_most c.temperature_at_most r.temperature
          && more_than c.n_maximum r.n)
        parameter_invalid

unfoldable pub validate_capabilities : ModelCapabilities → ChatRequest → Option Rejection
validate_capabilities m r = first_of (
    reject_if (not m.chat) (unsupported "chat_completions")
    ∷ reject_if (r.stream && not m.streaming) (unsupported "streaming")
    ∷ reject_if (is_true r.stream_usage && not m.stream_usage) (unsupported "usage.stream")
    ∷ check_tools m r
    ∷ check_tool_choice m r r.tool_choice
    ∷ reject_if (is_given r.parallel_tool_calls && not m.parallel_tool_calls)
        (unsupported "tools.parallel_tool_calls")
    ∷ reject_if (r.stream && not (is_empty r.tools) && not m.tool_streaming)
        (unsupported "tools.streaming_tool_calls")
    ∷ first_rejection (check_message m) r.messages
    ∷ check_partial m r.messages
    ∷ reject_if (not (r.prompt_cache_key == 0) && not m.prompt_cache_key)
        (unsupported "extensions.prompt_cache_key")
    ∷ reject_if (not (r.safety_identifier == 0) && not m.safety_identifier)
        (unsupported "extensions.safety_identifier")
    ∷ check_reasoning m r.reasoning
    ∷ check_format m r.response_format
    ∷ reject_if (less_int (pos 0) m.output_tokens && exceeds r.max_output_tokens m.output_tokens)
        (invalid "max_output_tokens_exceeded")
    ∷ check_parameters m.parameters r
    ∷ first_rejection (check_sampling (reasoning_enabled_for_model m r) r)
        m.parameters.sampling_conditions
    ∷ [])
