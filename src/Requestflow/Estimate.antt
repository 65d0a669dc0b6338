-- ===== src/Requestflow/Estimate.antt =====
-- internal/requestflow/estimate.go: token estimates from byte counts, over the fields that count of
-- the requests and events of internal/canonical. A string is its bytes; the sums of the lengths of
-- strings in memory stay far below 2^63.
use llm2api.Prelude.{
  ℕ, ◌+◌, ◌*◌, ◌/◌, ◌%◌, ◌≤◌, not, max, Option, none, some, List, [], ◌∷◌, length, ltb, ◌==◌,
  if◌then◌else◌, arith, ℤ, pos, add64,
}
use llm2api.Requestflow.Request.{Message, ChatRequest}

pub record ToolCallDelta : Type 0 where
  pub function_name : List ℕ
  pub arguments_fragment : List ℕ

pub record StreamEvent : Type 0 where
  pub content_delta : List ℕ
  pub reasoning_delta : List ℕ
  pub tool_call_delta : Option ToolCallDelta

module _ {A : Type 0} where
  unfoldable pub sum_of : (A → ℕ) → List A → ℕ
  sum_of f [] = 0
  sum_of f (x ∷ xs) = f x + sum_of f xs

abbrev pub length_of : Option (List ℕ) → ℕ
length_of none = 0
length_of (some bytes) = length bytes

unfoldable pub message_bytes : Message → ℕ
message_bytes m =
    8
    + sum_of (λ p. length p.text) m.content
    + sum_of (λ c. length c.id + length c.function.name + length c.function.arguments) m.tool_calls
    + length_of m.reasoning

unfoldable pub input_bytes : ChatRequest → ℕ
input_bytes r =
    sum_of message_bytes r.messages
    + sum_of (λ t. length t.name + length t.description + length t.parameters) r.tools

unfoldable pub estimate_input_tokens : ChatRequest → ℕ
estimate_input_tokens r =
    let bytes = input_bytes r in
    let input = bytes / 4 in
    let rounded = if not (bytes % 4 == 0) then input + 1 else input in
    if ltb rounded 1 then 1 else rounded

abbrev pub estimate_output_budget : ChatRequest → ℤ
estimate_output_budget r = elim r.max_output_tokens [ none ↦ pos 1024 | some n ↦ n ]

unfoldable pub estimate_tokens : ChatRequest → ℤ
estimate_tokens r = add64 (pos (estimate_input_tokens r)) (estimate_output_budget r)

abbrev pub delta_bytes : Option ToolCallDelta → ℕ
delta_bytes none = 0
delta_bytes (some d) = length d.function_name + length d.arguments_fragment

unfoldable pub output_bytes : List StreamEvent → ℕ
output_bytes =
    sum_of (λ e. length e.content_delta + length e.reasoning_delta + delta_bytes e.tool_call_delta)

unfoldable pub estimated_output_tokens : List StreamEvent → ℕ
estimated_output_tokens events =
    if output_bytes events == 0 then 0 else (output_bytes events + 3) / 4

-- Four bytes to a token, both estimates are the least number of tokens that holds the bytes; that of
-- the input is at least one.
pub estimates_round_up :
    (r : ChatRequest) (events : List StreamEvent)
    → ((1 ≤ estimate_input_tokens r)
        × (input_bytes r ≤ 4 * estimate_input_tokens r)
        × (4 * estimate_input_tokens r ≤ max 4 (input_bytes r + 3)))
      × ((output_bytes events ≤ 4 * estimated_output_tokens events)
          × (4 * estimated_output_tokens events ≤ output_bytes events + 3))
unfolding estimate_input_tokens estimated_output_tokens
estimates_round_up r events = ground arith
