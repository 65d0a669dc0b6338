-- ===== src/Requestflow/Request.antt =====
-- internal/canonical/chat.go, tools.go and reasoning.go: the request of a chat, over the fields that
-- the workflow reads. A string that is measured is its bytes; one that is only compared is a number,
-- 0 the empty string; a float64 is only compared, so it is an integer that keeps the order. The
-- lengths and token counts are not negative and stay far below 2^63.
use llm2api.Prelude.{ℕ, Bool, Option, List, ℤ}

pub record ToolFunctionCall : Type 0 where
  pub name : List ℕ
  pub arguments : List ℕ

pub record ToolCall : Type 0 where
  pub id : List ℕ
  pub function : ToolFunctionCall

pub data ContentPartType : Type 0 where
  text_part image_url video_url other_part : ContentPartType

pub record ContentPart : Type 0 where
  pub part_type : ContentPartType
  pub text : List ℕ

pub data Role : Type 0 where
  assistant other_role : Role

pub record Message : Type 0 where
  pub role : Role
  pub name : ℕ
  pub content : List ContentPart
  pub partial : Bool
  pub tool_calls : List ToolCall
  pub reasoning : Option (List ℕ)

pub record ToolDefinition : Type 0 where
  pub name : List ℕ
  pub description : List ℕ
  pub parameters : List ℕ
  pub strict : Option Bool

pub data ResponseFormat : Type 0 where
  format_text json_object json_schema other_format : ResponseFormat

pub record ReasoningConfig : Type 0 where
  pub enabled : Option Bool
  pub effort : ℕ
  pub preserve : Option Bool

pub record ChatRequest : Type 0 where
  pub messages : List Message
  pub tools : List ToolDefinition
  pub tool_choice : Option ℕ
  pub parallel_tool_calls : Option Bool
  pub stream : Bool
  pub stream_usage : Option Bool
  pub max_output_tokens : Option ℤ
  pub n : Option ℤ
  pub temperature : Option ℤ
  pub top_p : Option ℤ
  pub top_k : Option ℤ
  pub presence_penalty : Option ℤ
  pub frequency_penalty : Option ℤ
  pub thinking_budget : Option ℤ
  pub response_format : Option ResponseFormat
  pub reasoning : Option ReasoningConfig
  pub prompt_cache_key : ℕ
  pub safety_identifier : ℕ

pub data UsageSource : Type 0 where
  authoritative estimated unknown_source : UsageSource

-- What a provider reports, and what the workflow records.
pub record ReportedUsage : Type 0 where
  pub input_tokens : Option ℤ
  pub output_tokens : Option ℤ
  pub source : UsageSource

pub record Usage : Type 0 where
  pub input_tokens : ℤ
  pub output_tokens : ℤ
  pub source : UsageSource

-- A response by the messages of its choices.
pub record ChatResponse : Type 0 where
  pub choices : List Message
  pub usage : Option ReportedUsage
