-- ===== src/Resilience/Backoff/Bounds.antt =====
-- internal/resilience/backoff.go: what `validate` guarantees, and that the int64 arithmetic of a
-- validated configuration stays in range.
use llm2api.Prelude.{ℕ, ◌+◌, ◌-◌, ◌*◌, ◌/◌, ◌≤◌, ◌<◌, min, ◌≡◌, ◌≢◌, Option, none, arith}
use llm2api.Resilience.Errors.{ok}
use llm2api.Resilience.Backoff.{BackoffInput, BackoffConfig, Random, max_int64, validate, next_base}

pub record IsValid (c : BackoffConfig) : Type 0 where
  pub initial_pos : 0 < c.initial
  pub ordered : c.initial ≤ c.maximum
  pub denominator_pos : 0 < c.multiplier_denominator
  pub at_least_one : c.multiplier_denominator ≤ c.multiplier_numerator
  pub numerator_le : c.multiplier_numerator ≤ 1000
  pub jitter_le : c.jitter_permille ≤ 1000
  pub maximum_le : c.maximum ≤ max_int64 / 2000

pub validate-IsValid :
    (input : BackoffInput) (random : Option Random) {c : BackoffConfig}
    → validate input random ≡ ok c
    → IsValid c × (0 < c.jitter_permille → random ≢ none)
unfolding validate
validate-IsValid input random h = ground arith

module _ (c : BackoffConfig) (v : IsValid c) where
  pub product_bound :
      (base : ℕ) → base ≤ c.maximum → base * c.multiplier_numerator ≤ 4611686018427387903
  product_bound base h = grind (arith, v.numerator_le, v.maximum_le)

  -- a * b / d ≥ a whenever b ≥ d > 0.
  pub le-scaled :
      (base : ℕ)
      → base
        ≤ (base * c.multiplier_numerator + (c.multiplier_denominator - 1))
          / c.multiplier_denominator
  le-scaled base = grind (arith, v.at_least_one, v.denominator_pos)

  -- The int64 sum of one round does not wrap.
  pub next_base_exact :
      (base : ℕ)
      → base ≤ c.maximum
      → next_base c base
        ≡ min c.maximum (
            (base * c.multiplier_numerator + (c.multiplier_denominator - 1))
            / c.multiplier_denominator)
  unfolding next_base
  next_base_exact base h = ground (arith, product_bound base h, v.numerator_le, v.at_least_one)
