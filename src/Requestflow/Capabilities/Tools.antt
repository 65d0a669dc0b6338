-- ===== src/Requestflow/Capabilities/Tools.antt =====
-- internal/requestflow/service.go: when the tools and the choice of one are supported.
use mathlib.Core.Path.{subst}
use mathlib.Core.Option.{some-injective}
use llm2api.Prelude.{
  ℕ, ◌≡◌, ◌≢◌, refl, inl, inr, Bool, true, ◌&&◌, not, Option, none, some, [], get_elem?, has, arith,
  Bool-cases, Option-cases,
}
use llm2api.Requestflow.Request.{ToolDefinition, ChatRequest}
use llm2api.Requestflow.Capabilities.{
  ModelCapabilities, reject_if, is_empty, check_tools, check_tool_choice,
  reasoning_enabled_for_model,
}
use llm2api.Requestflow.Capabilities.Checks.{
  then_check-none, none-then_check, first_rejection-none, none-first_rejection, is_empty_ne,
  ne_is_empty, reject_three, three_reject,
}

module _ (m : ModelCapabilities) where
  pub check_tools-none :
      (r : ChatRequest)
      → check_tools m r ≡ none
      → (r.tools ≢ [] → m.tools ≡ true)
        × ((i : ℕ) (t : ToolDefinition) (b : Bool)
            → get_elem? r.tools i ≡ some t
            → t.strict ≡ some b
            → m.strict_tools ≡ true)
  unfolding check_tools
  check_tools-none r h =
      let (a, rest) = then_check-none (reject_if (not (is_empty r.tools) && not m.tools) _) _ h in
      (
        λ n. ground (arith, is_empty_ne r.tools n, a),
        λ i t b at e. ground (arith, first_rejection-none _ r.tools rest i t at, e),
      )

  pub none-check_tools :
      (r : ChatRequest)
      → (r.tools ≢ [] → m.tools ≡ true)
      → ((i : ℕ) (t : ToolDefinition) (b : Bool)
          → get_elem? r.tools i ≡ some t
          → t.strict ≡ some b
          → m.strict_tools ≡ true)
      → check_tools m r ≡ none
  unfolding check_tools
  none-check_tools r a s =
      none-then_check (reject_if (not (is_empty r.tools) && not m.tools) _) _
        (elim (Bool-cases (is_empty r.tools)) [
          | inl e ↦ rw e refl
          | inr e ↦ rw (e, a (ne_is_empty r.tools e)) refl
        ])
        (none-first_rejection _ r.tools (λ i t at. elim (Option-cases t.strict) [
          | inl e ↦ rw e refl
          | inr (b, e) ↦ rw (e, s i t b at e) refl
        ]))

  pub check_tool_choice-none :
      (r : ChatRequest) (choice : Option ℕ)
      → check_tool_choice m r choice ≡ none
      → (mode : ℕ) → choice ≡ some mode
      → (has mode m.tool_choice_modes ≡ true)
        × (m.tool_choice_modes_with_reasoning ≢ []
            → reasoning_enabled_for_model m r ≡ true
            → has mode m.tool_choice_modes_with_reasoning ≡ true)
  unfolding check_tool_choice
  check_tool_choice-none r none h mode e = absurd (ground arith)
  check_tool_choice-none r (some k) h mode e =
      let same : k ≡ mode = some-injective k mode e in
      let (a, rest) = then_check-none (reject_if (not (has k m.tool_choice_modes)) _) _ h in
      subst
        (λ x.
          (has x m.tool_choice_modes ≡ true)
          × (m.tool_choice_modes_with_reasoning ≢ []
              → reasoning_enabled_for_model m r ≡ true
              → has x m.tool_choice_modes_with_reasoning ≡ true))
        same
        (
          ground (arith, a),
          λ n on. reject_three _ _ _ _ rest (is_empty_ne m.tool_choice_modes_with_reasoning n) on,
        )

  pub none-check_tool_choice :
      (r : ChatRequest) (choice : Option ℕ)
      → ((mode : ℕ)
          → choice ≡ some mode
          → (has mode m.tool_choice_modes ≡ true)
            × (m.tool_choice_modes_with_reasoning ≢ []
                → reasoning_enabled_for_model m r ≡ true
                → has mode m.tool_choice_modes_with_reasoning ≡ true))
      → check_tool_choice m r choice ≡ none
  unfolding check_tool_choice
  none-check_tool_choice r none h = refl
  none-check_tool_choice r (some k) h =
      let (a, b) = h k refl in
      none-then_check (reject_if (not (has k m.tool_choice_modes)) _) _ (rw a refl)
        (three_reject _ _ _ _ (λ e on. b (ne_is_empty m.tool_choice_modes_with_reasoning e) on))
