-- ===== src/Resilience/Backoff/Ideal.antt =====
-- internal/resilience/backoff.go: the loop against unbounded arithmetic without early exits, and
-- the range of the delay.
use llm2api.Prelude.{ℕ, zero, suc, ◌+◌, ◌-◌, ◌*◌, ◌/◌, ◌≤◌, ◌<◌, min, ◌≡◌, refl, arith}
use llm2api.Resilience.Backoff.{BackoffConfig, i64, grow}
use llm2api.Resilience.Backoff.Bounds.{IsValid, le-scaled, next_base_exact}

-- One round on unbounded numbers: multiply, round up, cap.
abbrev pub ideal_next : BackoffConfig → ℕ → ℕ
ideal_next c base =
    min c.maximum
      ((base * c.multiplier_numerator + (c.multiplier_denominator - 1)) / c.multiplier_denominator)

pub ideal : BackoffConfig → ℕ → ℕ → ℕ
ideal c zero base = base
ideal c (suc rounds) base = ideal c rounds (ideal_next c base)

module _ (c : BackoffConfig) (v : IsValid c) where
  ideal_next-maximum : ideal_next c c.maximum ≡ c.maximum
  ideal_next-maximum = omega (arith, le-scaled c v c.maximum)

  ideal-maximum : (rounds : ℕ) → ideal c rounds c.maximum ≡ c.maximum
  unfolding ideal
  ideal-maximum zero = refl
  ideal-maximum (suc rounds) = rw ideal_next-maximum (ideal-maximum rounds)

  -- The test before the product: beyond it the product would pass the maximum.
  overshoot :
      (base : ℕ)
      → c.maximum * c.multiplier_denominator / c.multiplier_numerator < base
      → ideal_next c base ≡ c.maximum
  overshoot base h = grind (arith, v.at_least_one, v.denominator_pos)

  limit_exact : i64 (c.maximum * c.multiplier_denominator) ≡ c.maximum * c.multiplier_denominator
  limit_exact = grind (arith, v.numerator_le, v.at_least_one, v.maximum_le)

  -- For a validated configuration and a base within the maximum, the loop with int64 arithmetic and
  -- its early exits gives the value of the loop over unbounded numbers that is cut at the maximum.
  pub grow-ideal : (rounds base : ℕ) → base ≤ c.maximum → grow c rounds base ≡ ideal c rounds base
  unfolding grow ideal
  grow-ideal zero base h = refl
  grow-ideal (suc rounds) base h = ground (
    arith,
    limit_exact,
    next_base_exact c v base h,
    overshoot base,
    ideal-maximum rounds,
    ideal_next-maximum,
    grow-ideal rounds (ideal_next c base),
  )

  -- Every base along the loop lies between the initial one and the maximum.
  pub ideal_bounds :
      (rounds base : ℕ)
      → base ≤ c.maximum
      → (base ≤ ideal c rounds base) × (ideal c rounds base ≤ c.maximum)
  unfolding ideal
  ideal_bounds zero base h = omega arith
  ideal_bounds (suc rounds) base h =
      omega (arith, ideal_bounds rounds (ideal_next c base), le-scaled c v base)

  -- With more rounds the base never falls.
  pub ideal_mono :
      (rounds base : ℕ) → base ≤ c.maximum → ideal c rounds base ≤ ideal c (suc rounds) base
  unfolding ideal
  ideal_mono zero base h = omega (arith, le-scaled c v base)
  ideal_mono (suc rounds) base h = ideal_mono rounds (ideal_next c base) (omega arith)
