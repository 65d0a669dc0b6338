-- ===== src/Requestflow/Capabilities/Equivalence.antt =====
-- internal/requestflow/service.go: `validateCapabilities` against what a model supports.
use llm2api.Prelude.{
  All, ◌≡◌, ◌↔◌, ◌&&◌, not, none, [], ◌∷◌, pos, less_int, arith, ◌==◌, ==→≢, ==_ne,
}
use llm2api.Requestflow.Request.{ChatRequest}
use llm2api.Requestflow.Capabilities.{
  ModelCapabilities, unsupported, invalid, reject_if, first_rejection, check_message, check_partial,
  check_reasoning, check_format, exceeds, check_parameters, check_sampling, validate_capabilities,
  reasoning_enabled_for_model,
}
use llm2api.Requestflow.Capabilities.Supported.{IsSupported}
use llm2api.Requestflow.Capabilities.Checks.{
  first_of-none, none-first_of, first_rejection-none, none-first_rejection, is_empty_ne,
}
use llm2api.Requestflow.Capabilities.Messages.{
  check_message-Supports, Supports-check_message, check_partial-none, none-check_partial,
}
use llm2api.Requestflow.Capabilities.Tools.{
  check_tools-none, none-check_tools, check_tool_choice-none, none-check_tool_choice,
}
use llm2api.Requestflow.Capabilities.Sampling.{check_sampling-Samples, Samples-check_sampling}
use llm2api.Requestflow.Capabilities.Conditions.{
  within_of, of_within, streams_needs, given_needs, check_reasoning-Supports,
  Supports-check_reasoning, check_format-none, none-check_format, check_parameters-Supports,
  Supports-check_parameters,
}

module _ (m : ModelCapabilities) (r : ChatRequest) where
  validate_sound : validate_capabilities m r ≡ none → IsSupported m r
  unfolding validate_capabilities
  validate_sound h =
      let (a1, (a2, (a3, (a4, (a5, (a6, (a7, (a8, rest)))))))) = first_of-none _ h in
      let (a9, (a10, (a11, (a12, (a13, (a14, (a15, (a16, _)))))))) = rest in
      let (tools, strict) = check_tools-none m r a4 in
      record {
        chats = ground (arith, a1);
        streams = λ e. ground (arith, a2, e);
        stream_usage = λ e. ground (arith, a3, e);
        tools = tools;
        strict = strict;
        chooses = λ mode e. (check_tool_choice-none m r r.tool_choice a5 mode e).0;
        chooses_with_reasoning = λ mode e. (check_tool_choice-none m r r.tool_choice a5 mode e).1;
        parallel = λ b e. ground (arith, a6, e);
        streams_tools = λ e n. ground (arith, a7, e, is_empty_ne r.tools n);
        messages = λ i x at.
            check_message-Supports m x
              (first_rejection-none (check_message m) r.messages a8 i x at);
        partial = check_partial-none m r.messages a9;
        cache_key = λ n. ground (arith, a10, ==_ne r.prompt_cache_key 0 n);
        identifier = λ n. ground (arith, a11, ==_ne r.safety_identifier 0 n);
        reasoning = check_reasoning-Supports m r.reasoning a12;
        objects = (check_format-none m r.response_format a13).0;
        schemas = (check_format-none m r.response_format a13).1;
        output = λ v on e. within_of _ r.max_output_tokens m.output_tokens _ v a14 on e;
        parameters = check_parameters-Supports m.parameters r a15;
        sampling = λ i c at.
            check_sampling-Samples (reasoning_enabled_for_model m r) r c
              (first_rejection-none _ m.parameters.sampling_conditions a16 i c at);
      }

  -- The checks from that of streamed tool calls on.
  later_checks :
      IsSupported m r
      → All
          (λ c. c ≡ none)
          (first_rejection (check_message m) r.messages
            ∷ check_partial m r.messages
            ∷ reject_if
                (not (r.prompt_cache_key == 0) && not m.prompt_cache_key)
                (unsupported "extensions.prompt_cache_key")
            ∷ reject_if
                (not (r.safety_identifier == 0) && not m.safety_identifier)
                (unsupported "extensions.safety_identifier")
            ∷ check_reasoning m r.reasoning
            ∷ check_format m r.response_format
            ∷ reject_if
                (less_int (pos 0) m.output_tokens && exceeds r.max_output_tokens m.output_tokens)
                (invalid "max_output_tokens_exceeded")
            ∷ check_parameters m.parameters r
            ∷ first_rejection
                (check_sampling (reasoning_enabled_for_model m r) r)
                m.parameters.sampling_conditions
            ∷ [])
  later_checks s = (
    none-first_rejection (check_message m) r.messages
        (λ i x at. Supports-check_message m x (s.messages i x at)),
    (
      none-check_partial m r.messages s.partial,
      (
        ground (arith, s.cache_key, ==→≢ r.prompt_cache_key 0),
        (
          ground (arith, s.identifier, ==→≢ r.safety_identifier 0),
          (
            Supports-check_reasoning m r.reasoning s.reasoning,
            (
              none-check_format m r.response_format s.objects s.schemas,
              (
                of_within _ r.max_output_tokens m.output_tokens _ (λ v on e. s.output v on e),
                (
                  Supports-check_parameters m.parameters r s.parameters,
                  (
                    none-first_rejection _ m.parameters.sampling_conditions (λ i c at.
                        Samples-check_sampling (reasoning_enabled_for_model m r) r c
                          (s.sampling i c at)),
                    tt,
                  ),
                ),
              ),
            ),
          ),
        ),
      ),
    ),
  )

  validate_complete : IsSupported m r → validate_capabilities m r ≡ none
  unfolding validate_capabilities
  validate_complete s = none-first_of _ (
    ground (arith, s.chats),
    (
      ground (arith, s.streams),
      (
        ground (arith, s.stream_usage),
        (
          none-check_tools m r s.tools s.strict,
          (
            none-check_tool_choice m r r.tool_choice
                (λ mode e. (s.chooses mode e, s.chooses_with_reasoning mode e)),
            (
              given_needs r.parallel_tool_calls m.parallel_tool_calls _ s.parallel,
              (streams_needs r.stream r.tools m.tool_streaming _ s.streams_tools, later_checks s),
            ),
          ),
        ),
      ),
    ),
  )

-- The capabilities of a model let a request pass exactly where the model supports it.
pub validate_capabilities-IsSupported :
    (m : ModelCapabilities) (r : ChatRequest) → (validate_capabilities m r ≡ none) ↔ IsSupported m r
validate_capabilities-IsSupported m r = (validate_sound m r, validate_complete m r)
