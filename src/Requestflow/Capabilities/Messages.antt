-- ===== src/Requestflow/Capabilities/Messages.antt =====
-- internal/requestflow/service.go: when the messages are supported.
use mathlib.Core.Path.{subst}
use mathlib.Core.Option.{some-injective}
use llm2api.Prelude.{
  ℕ, zero, suc, ◌≡◌, refl, ap, inl, inr, true, ◌&&◌, ◌||◌, not, none, some, List, [], ◌∷◌, length,
  get_elem?, arith, ◌==◌, Bool-cases, ==→≢, ==_ne,
}
use llm2api.Requestflow.Request.{assistant, Message}
use llm2api.Requestflow.Capabilities.{
  ModelCapabilities, unsupported, invalid, is_assistant, reject_if, is_empty, check_message,
  check_partial,
}
use llm2api.Requestflow.Capabilities.Supported.{SupportsMessage}
use llm2api.Requestflow.Capabilities.Checks.{
  then_check-none, none-then_check, first_rejection-none, none-first_rejection, length-is_empty,
  is_empty-length,
}

module _ (m : ModelCapabilities) (y : Message) (ys : List Message) where
  pub partial_last :
      y.partial ≡ true
      → reject_if (y.partial && not m.partial_mode) (unsupported "extensions.partial_mode") ≡ none
      → reject_if
          (y.partial && (not (is_assistant y.role) || not (is_empty ys)))
          (invalid "invalid_partial_mode")
        ≡ none
      → (m.partial_mode ≡ true) × (y.role ≡ assistant) × (1 ≡ suc (length ys))
  partial_last e p q =
      (ground (arith, e, p), ground (arith, e, q), length-is_empty ys (ground (arith, e, q)))

  pub last_partial :
      (y.partial ≡ true → (m.partial_mode ≡ true) × (y.role ≡ assistant) × (1 ≡ suc (length ys)))
      → reject_if
          (y.partial && (not (is_assistant y.role) || not (is_empty ys)))
          (invalid "invalid_partial_mode")
        ≡ none
  last_partial h = elim (Bool-cases y.partial) [
    | inl e ↦
        let (_, role, last) = h e in rw (role, is_empty-length ys (omega (arith, last)), e) refl
    | inr e ↦ rw e refl
  ]

module _ (m : ModelCapabilities) where
  -- The message loop.
  pub check_message-Supports : (x : Message) → check_message m x ≡ none → SupportsMessage m x
  unfolding check_message
  check_message-Supports x h =
      let (n, rest) = then_check-none (reject_if (not (x.name == 0) && not m.message_name) _) _ h in
      record {
        named = λ e. ground (arith, n, ==_ne x.name 0 e);
        images = λ i part at e. ground (arith, first_rejection-none _ x.content rest i part at, e);
        videos = λ i part at e. ground (arith, first_rejection-none _ x.content rest i part at, e);
      }

  pub Supports-check_message : (x : Message) → SupportsMessage m x → check_message m x ≡ none
  unfolding check_message
  Supports-check_message x s =
      none-then_check (reject_if (not (x.name == 0) && not m.message_name) _) _
        (ground (arith, s.named, ==→≢ x.name 0))
        (none-first_rejection _ x.content
          (λ i part at. ground (arith, s.images i part at, s.videos i part at)))

  pub check_partial-none :
      (xs : List Message)
      → check_partial m xs ≡ none
      → (i : ℕ) (x : Message) → get_elem? xs i ≡ some x
      → x.partial ≡ true
      → (m.partial_mode ≡ true) × (x.role ≡ assistant) × (suc i ≡ length xs)
  unfolding check_partial
  check_partial-none [] h i x at e = absurd (ground arith)
  check_partial-none (y ∷ ys) h zero x at e =
      let same : y ≡ x = some-injective y x at in
      let (p, rest) = then_check-none (reject_if (y.partial && not m.partial_mode) _) _ h in
      let (q, _) = then_check-none (reject_if _ _) _ rest in
      subst
        (λ (z : Message).
          z.partial ≡ true → (m.partial_mode ≡ true) × (z.role ≡ assistant) × (1 ≡ suc (length ys)))
        same (λ e. partial_last m y ys e p q) e
  check_partial-none (y ∷ ys) h (suc i) x at e =
      let (p, rest) = then_check-none (reject_if (y.partial && not m.partial_mode) _) _ h in
      let (q, later) = then_check-none (reject_if _ _) _ rest in
      let (mode, role, last) = check_partial-none ys later i x at e in (mode, role, ap suc last)

  pub none-check_partial :
      (xs : List Message)
      → ((i : ℕ) (x : Message)
          → get_elem? xs i ≡ some x
          → x.partial ≡ true
          → (m.partial_mode ≡ true) × (x.role ≡ assistant) × (suc i ≡ length xs))
      → check_partial m xs ≡ none
  unfolding check_partial
  none-check_partial [] h = refl
  none-check_partial (y ∷ ys) h =
      none-then_check (reject_if (y.partial && not m.partial_mode) _) _ (ground (arith, h 0 y refl))
        (none-then_check (reject_if _ _) _ (last_partial m y ys (h 0 y refl)) (
          none-check_partial ys (λ i x at e.
            let (mode, role, last) = h (suc i) x at e in (mode, role, omega (arith, last)))))
