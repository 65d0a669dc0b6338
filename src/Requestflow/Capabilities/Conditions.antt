-- ===== src/Requestflow/Capabilities/Conditions.antt =====
-- internal/requestflow/service.go: when reasoning, the format and the parameters are supported.
use mathlib.Core.Path.{subst}
use mathlib.Core.Option.{some-injective}
use llm2api.Prelude.{
  ◌≡◌, ◌≢◌, refl, Bool, true, false, ◌&&◌, not, Option, none, some, List, [], ◌∷◌, ℤ, less_int,
  arith, ==→≢, ==_ne,
}
use llm2api.Requestflow.Request.{
  ResponseFormat, json_object, json_schema, ReasoningConfig, ChatRequest,
}
use llm2api.Requestflow.Capabilities.{
  ParameterCapabilities, ReasoningMode, ModelCapabilities, Rejection, can_toggle, is_false,
  unsupported, reject_if, is_given, is_empty, check_reasoning, check_format, exceeds,
  check_parameters,
}
use llm2api.Requestflow.Capabilities.Supported.{SupportsReasoning, SupportsParameters}
use llm2api.Requestflow.Capabilities.Checks.{first_of-none, none-first_of}
use llm2api.Requestflow.Capabilities.Limits.{validate_parameter-Keeps, Keeps-validate_parameter}

pub not_false :
    (b : Bool) (o : Option Bool) (r : Rejection)
    → (b ≡ true → o ≢ some false)
    → reject_if (b && is_false o) r ≡ none
not_false b none r h = ground arith
not_false b (some true) r h = ground arith
not_false false (some false) r h = refl
not_false true (some false) r h = absurd (h refl refl)

pub given_needs :
    {A : Type 0} (o : Option A) (b : Bool) (r : Rejection)
    → ((a : A) → o ≡ some a → b ≡ true)
    → reject_if (is_given o && not b) r ≡ none
given_needs none b r h = refl
given_needs (some a) b r h = rw (h a refl) refl

pub given_toggles :
    (o : Option Bool) (mode : ReasoningMode)
    → ((b : Bool) → o ≡ some b → mode ≢ ReasoningMode.other_mode)
    → reject_if (is_given o && not (can_toggle mode)) (unsupported "reasoning.toggle") ≡ none
given_toggles none mode h = refl
given_toggles (some b) ReasoningMode.toggle h = refl
given_toggles (some b) ReasoningMode.hybrid h = refl
given_toggles (some b) ReasoningMode.always_on h = refl
given_toggles (some b) ReasoningMode.other_mode h = absurd (h b refl refl)

pub check_reasoning-Supports :
    (m : ModelCapabilities) (o : Option ReasoningConfig)
    → check_reasoning m o ≡ none
    → (c : ReasoningConfig) → o ≡ some c
    → SupportsReasoning m c
unfolding check_reasoning
check_reasoning-Supports m none h c e = absurd (ground arith)
check_reasoning-Supports m (some b) h c e =
    let (a1, (a2, (a3, (a4, (a5, (a6, _)))))) = first_of-none _ h in
    subst (SupportsReasoning m) (some-injective b c e) (record {
      reasons = ground (arith, a1);
      toggles = λ x given off. ground (arith, a2, given, off);
      stays_on = λ on off. ground (arith, a3, on, off);
      effort = λ n. ground (arith, a4, ==_ne b.effort 0 n);
      preserves = λ x given. ground (arith, a5, given);
      keeps_on = λ on off. ground (arith, a6, on, off);
    })

pub Supports-check_reasoning :
    (m : ModelCapabilities) (o : Option ReasoningConfig)
    → ((c : ReasoningConfig) → o ≡ some c → SupportsReasoning m c)
    → check_reasoning m o ≡ none
unfolding check_reasoning
Supports-check_reasoning m none h = refl
Supports-check_reasoning m (some c) h =
    let s = h c refl in
    none-first_of _ (
      ground (arith, s.reasons),
      (
        given_toggles c.enabled m.reasoning_mode s.toggles,
        (
          not_false m.reasoning_always_on c.enabled _ s.stays_on,
          (
            ground (arith, s.effort, ==→≢ c.effort 0),
            (
              given_needs c.preserve m.reasoning_preserve _ s.preserves,
              (not_false m.reasoning_always_on c.preserve _ s.keeps_on, tt),
            ),
          ),
        ),
      ),
    )

pub check_format-none :
    (m : ModelCapabilities) (o : Option ResponseFormat)
    → check_format m o ≡ none
    → (o ≡ some json_object → m.structured_output ≡ true)
      × (o ≡ some json_schema → m.json_schema_output ≡ true)
unfolding check_format
check_format-none m o h = (λ e. ground (arith, h, e), λ e. ground (arith, h, e))

pub none-check_format :
    (m : ModelCapabilities) (o : Option ResponseFormat)
    → (o ≡ some json_object → m.structured_output ≡ true)
    → (o ≡ some json_schema → m.json_schema_output ≡ true)
    → check_format m o ≡ none
unfolding check_format
none-check_format m none h k = refl
none-check_format m (some json_object) h k = rw (h refl) refl
none-check_format m (some json_schema) h k = rw (k refl) refl
none-check_format m (some ResponseFormat.format_text) h k = refl
none-check_format m (some ResponseFormat.other_format) h k = refl

pub check_parameters-Supports :
    (p : ParameterCapabilities) (r : ChatRequest)
    → check_parameters p r ≡ none
    → SupportsParameters p r
unfolding check_parameters
check_parameters-Supports p r h =
    let (a1, (a2, (a3, (a4, (a5, (a6, (a7, (a8, _)))))))) = first_of-none _ h in
    record {
      max_output_tokens = validate_parameter-Keeps _ _ _ a1;
      n = validate_parameter-Keeps _ _ _ a2;
      temperature = validate_parameter-Keeps _ _ _ a3;
      top_p = validate_parameter-Keeps _ _ _ a4;
      top_k = validate_parameter-Keeps _ _ _ a5;
      presence_penalty = validate_parameter-Keeps _ _ _ a6;
      frequency_penalty = validate_parameter-Keeps _ _ _ a7;
      thinking_budget = validate_parameter-Keeps _ _ _ a8;
    }

pub Supports-check_parameters :
    (p : ParameterCapabilities) (r : ChatRequest)
    → SupportsParameters p r
    → check_parameters p r ≡ none
unfolding check_parameters
Supports-check_parameters p r s = none-first_of _ (
  Keeps-validate_parameter _ _ _ s.max_output_tokens,
  (
    Keeps-validate_parameter _ _ _ s.n,
    (
      Keeps-validate_parameter _ _ _ s.temperature,
      (
        Keeps-validate_parameter _ _ _ s.top_p,
        (
          Keeps-validate_parameter _ _ _ s.top_k,
          (
            Keeps-validate_parameter _ _ _ s.presence_penalty,
            (
              Keeps-validate_parameter _ _ _ s.frequency_penalty,
              (Keeps-validate_parameter _ _ _ s.thinking_budget, tt),
            ),
          ),
        ),
      ),
    ),
  ),
)

pub within_of :
    (b : Bool) (o : Option ℤ) (limit : ℤ) (r : Rejection) (v : ℤ)
    → reject_if (b && exceeds o limit) r ≡ none
    → b ≡ true
    → o ≡ some v
    → less_int limit v ≡ false
within_of b none limit r v h on e = ground arith
within_of b (some w) limit r v h on e =
    subst (λ z. less_int limit z ≡ false) (some-injective w v e) (kept (less_int limit w) h)
  where
    kept : (x : Bool) → reject_if (b && x) r ≡ none → x ≡ false
    kept x k = ground (arith, on)

pub of_within :
    (b : Bool) (o : Option ℤ) (limit : ℤ) (r : Rejection)
    → ((v : ℤ) → b ≡ true → o ≡ some v → less_int limit v ≡ false)
    → reject_if (b && exceeds o limit) r ≡ none
of_within false o limit r h = refl
of_within true none limit r h = refl
of_within true (some v) limit r h = rw (h v refl refl) refl

pub streams_needs :
    {A : Type 0} (b : Bool) (xs : List A) (c : Bool) (r : Rejection)
    → (b ≡ true → xs ≢ [] → c ≡ true)
    → reject_if (b && not (is_empty xs) && not c) r ≡ none
streams_needs false xs c r h = refl
streams_needs true [] c r h = refl
streams_needs true (x ∷ xs) c r h = rw (h refl (λ e. ground arith)) refl
