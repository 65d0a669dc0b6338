-- ===== src/Requestflow/Capabilities/Supported.antt =====
-- internal/requestflow/service.go: what it means that a model supports a request, one condition
-- after the other and without their order.
use llm2api.Prelude.{
  ℕ, suc, ◌≡◌, ◌≢◌, Bool, true, false, Option, some, [], length, get_elem?, ℤ, pos, has, less_int,
  same_int, not,
}
use llm2api.Requestflow.Request.{
  image_url, video_url, ContentPart, assistant, Message, ToolDefinition, json_object, json_schema,
  ReasoningConfig, ChatRequest,
}
use llm2api.Requestflow.Capabilities.{
  ParameterLimit, SamplingCondition, ParameterCapabilities, ReasoningMode, ModelCapabilities,
  reasoning_enabled_for_model,
}

-- A value that is given keeps to the limit.
pub record Keeps (limit : ParameterLimit) (value : Option ℤ) : Type 0 where
  pub supported : (v : ℤ) → value ≡ some v → limit.supported ≡ true
  pub from : (v low : ℤ) → value ≡ some v → limit.minimum ≡ some low → less_int v low ≡ false
  pub to : (v high : ℤ) → value ≡ some v → limit.maximum ≡ some high → less_int high v ≡ false
  pub exact :
      (v : ℤ)
      → value ≡ some v
      → limit.exact_values ≢ []
      → (i : ℕ) × (x : ℤ) × (get_elem? limit.exact_values i ≡ some x) × (same_int x v ≡ true)

pub record SupportsReasoning (m : ModelCapabilities) (c : ReasoningConfig) : Type 0 where
  pub reasons : m.reasoning ≡ true
  pub toggles : (b : Bool) → c.enabled ≡ some b → m.reasoning_mode ≢ ReasoningMode.other_mode
  pub stays_on : m.reasoning_always_on ≡ true → c.enabled ≢ some false
  pub effort : c.effort ≢ 0 → has c.effort m.reasoning_efforts ≡ true
  pub preserves : (b : Bool) → c.preserve ≡ some b → m.reasoning_preserve ≡ true
  pub keeps_on : m.reasoning_always_on ≡ true → c.preserve ≢ some false

pub record SupportsMessage (m : ModelCapabilities) (message : Message) : Type 0 where
  pub named : message.name ≢ 0 → m.message_name ≡ true
  pub images :
      (i : ℕ) (part : ContentPart)
      → get_elem? message.content i ≡ some part
      → part.part_type ≡ image_url
      → m.image_input ≡ true
  pub videos :
      (i : ℕ) (part : ContentPart)
      → get_elem? message.content i ≡ some part
      → part.part_type ≡ video_url
      → m.video_input ≡ true

-- Where the condition applies, the temperature and the number of choices are as it says.
pub record Samples (enabled : Bool) (r : ChatRequest) (c : SamplingCondition) : Type 0 where
  pub exact :
      (v t : ℤ)
      → c.thinking_enabled ≢ some (not enabled)
      → c.temperature_exact ≡ some v
      → r.temperature ≡ some t
      → same_int t v ≡ true
  pub several :
      (limit t n k : ℤ)
      → c.thinking_enabled ≢ some (not enabled)
      → c.temperature_at_most ≡ some limit
      → r.temperature ≡ some t
      → less_int limit t ≡ false
      → c.n_maximum ≡ some n
      → r.n ≡ some k
      → less_int n k ≡ false

pub record SupportsParameters (p : ParameterCapabilities) (r : ChatRequest) : Type 0 where
  pub max_output_tokens : Keeps p.max_output_tokens r.max_output_tokens
  pub n : Keeps p.n r.n
  pub temperature : Keeps p.temperature r.temperature
  pub top_p : Keeps p.top_p r.top_p
  pub top_k : Keeps p.top_k r.top_k
  pub presence_penalty : Keeps p.presence_penalty r.presence_penalty
  pub frequency_penalty : Keeps p.frequency_penalty r.frequency_penalty
  pub thinking_budget : Keeps p.thinking_budget r.thinking_budget

pub record IsSupported (m : ModelCapabilities) (r : ChatRequest) : Type 0 where
  pub chats : m.chat ≡ true
  pub streams : r.stream ≡ true → m.streaming ≡ true
  pub stream_usage : r.stream_usage ≡ some true → m.stream_usage ≡ true
  pub tools : r.tools ≢ [] → m.tools ≡ true
  pub strict :
      (i : ℕ) (t : ToolDefinition) (b : Bool)
      → get_elem? r.tools i ≡ some t
      → t.strict ≡ some b
      → m.strict_tools ≡ true
  pub chooses : (mode : ℕ) → r.tool_choice ≡ some mode → has mode m.tool_choice_modes ≡ true
  pub chooses_with_reasoning :
      (mode : ℕ)
      → r.tool_choice ≡ some mode
      → m.tool_choice_modes_with_reasoning ≢ []
      → reasoning_enabled_for_model m r ≡ true
      → has mode m.tool_choice_modes_with_reasoning ≡ true
  pub parallel : (b : Bool) → r.parallel_tool_calls ≡ some b → m.parallel_tool_calls ≡ true
  pub streams_tools : r.stream ≡ true → r.tools ≢ [] → m.tool_streaming ≡ true
  pub messages :
      (i : ℕ) (message : Message)
      → get_elem? r.messages i ≡ some message
      → SupportsMessage m message
  pub partial :
      (i : ℕ) (message : Message)
      → get_elem? r.messages i ≡ some message
      → message.partial ≡ true
      → (m.partial_mode ≡ true) × (message.role ≡ assistant) × (suc i ≡ length r.messages)
  pub cache_key : r.prompt_cache_key ≢ 0 → m.prompt_cache_key ≡ true
  pub identifier : r.safety_identifier ≢ 0 → m.safety_identifier ≡ true
  pub reasoning : (c : ReasoningConfig) → r.reasoning ≡ some c → SupportsReasoning m c
  pub objects : r.response_format ≡ some json_object → m.structured_output ≡ true
  pub schemas : r.response_format ≡ some json_schema → m.json_schema_output ≡ true
  pub output :
      (v : ℤ)
      → less_int (pos 0) m.output_tokens ≡ true
      → r.max_output_tokens ≡ some v
      → less_int m.output_tokens v ≡ false
  pub parameters : SupportsParameters m.parameters r
  pub sampling :
      (i : ℕ) (c : SamplingCondition)
      → get_elem? m.parameters.sampling_conditions i ≡ some c
      → Samples (reasoning_enabled_for_model m r) r c
