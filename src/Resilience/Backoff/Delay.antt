-- ===== src/Resilience/Backoff/Delay.antt =====
-- internal/resilience/backoff.go: the delay that `backoffDelay` returns.
use llm2api.Prelude.{
  ℕ, ◌+◌, ◌-◌, ◌*◌, ◌/◌, ◌≤◌, ◌<◌, ◌≡◌, refl, ◌≢◌, inl, inr, Option, none, some, pos, arith, ltb,
  Bool-cases, ◌==◌, if◌then◌else◌,
}
use llm2api.Resilience.Errors.{ok}
use llm2api.Resilience.Backoff.{
  BackoffInput, BackoffConfig, Random, i64, sub64, validate, jittered, backoff_delay,
}
use llm2api.Resilience.Backoff.Bounds.{IsValid, validate-IsValid}
use llm2api.Resilience.Backoff.Ideal.{ideal, ideal_bounds, grow-ideal}

-- The base of a retry, on unbounded numbers.
abbrev pub base_of : BackoffConfig → ℕ → ℕ
base_of c ordinal = ideal c (ordinal - 1) c.initial

abbrev pub spread_of : BackoffConfig → ℕ → ℕ
spread_of c base = base * c.jitter_permille / 1000

-- The spread above the base, capped.
abbrev upper_of : BackoffConfig → ℕ → ℕ
upper_of c base =
    if ltb c.maximum (base + spread_of c base) then c.maximum else base + spread_of c base

-- A random source in its documented range.
abbrev pub InRange : Random → Type 0
InRange random =
    (width : ℕ) → 0 < width → (offset : ℕ) × (random width ≡ pos offset) × (offset < width)

module _ (c : BackoffConfig) (v : IsValid c) where
  base_bounds : (ordinal : ℕ) → (c.initial ≤ base_of c ordinal) × (base_of c ordinal ≤ c.maximum)
  base_bounds ordinal = ideal_bounds c v (ordinal - 1) c.initial v.ordered

  spread-le : (base : ℕ) → spread_of c base ≤ base
  spread-le base = grind (arith, v.jitter_le)

  spread_exact :
      (base : ℕ) → base ≤ c.maximum → i64 (base * c.jitter_permille) ≡ base * c.jitter_permille
  spread_exact base h = grind (arith, v.jitter_le, v.maximum_le)

  lower_exact :
      (base : ℕ) → base ≤ c.maximum → sub64 base (spread_of c base) ≡ base - spread_of c base
  lower_exact base h = omega (arith, spread-le base, v.maximum_le)

  upper_exact :
      (base : ℕ) → base ≤ c.maximum → i64 (base + spread_of c base) ≡ base + spread_of c base
  upper_exact base h = omega (arith, spread-le base, v.maximum_le)

  -- The call with the wrap-around gone.
  pub backoff_delay_lem :
      (ordinal : ℕ) (random : Option Random)
      → let base = base_of c ordinal in
        backoff_delay c ordinal random ≡ (
          if c.jitter_permille == 0
          then ok base
          else jittered (base - spread_of c base) (upper_of c base) random)
  unfolding backoff_delay
  backoff_delay_lem ordinal random =
      let inside = (base_bounds ordinal).1 in
      rw (
        grow-ideal c v (ordinal - 1) c.initial v.ordered,
        spread_exact _ inside,
        lower_exact _ inside,
        upper_exact _ inside,
      )

  jittered_bounds :
      (lower upper : ℕ) (random : Option Random) {d : ℕ}
      → lower ≤ upper
      → upper ≤ c.maximum
      → jittered lower upper random ≡ ok d
      → (lower ≤ d) × (d ≤ upper)
  unfolding jittered
  jittered_bounds lower upper none l u h = ground arith
  jittered_bounds lower upper (some random) l u h = ground (arith, v.maximum_le)

  jittered_total :
      (lower upper : ℕ) (random : Random)
      → InRange random
      → lower ≤ upper
      → upper ≤ c.maximum
      → (d : ℕ) × (jittered lower upper (some random) ≡ ok d)
  unfolding jittered
  jittered_total lower upper random good l u =
      let (offset, drawn, below) =
        good (i64 (sub64 upper lower + 1)) (omega (arith, v.maximum_le)) in
      (i64 (lower + offset), rw drawn (ground arith))

  drawn_total :
      (ordinal : ℕ) (random : Option Random)
      → random ≢ none
      → ((r : Random) → random ≡ some r → InRange r)
      → let base = base_of c ordinal in
        (d : ℕ) × (jittered (base - spread_of c base) (upper_of c base) random ≡ ok d)
  drawn_total ordinal none set good = absurd (set refl)
  drawn_total ordinal (some r) set good =
      jittered_total _ _ r (good r refl) (ground (arith, base_bounds ordinal))
        (ground (arith, base_bounds ordinal))

-- A validated configuration, any retry ordinal and any random source: a delay that is returned
-- lies within the jitter around the ideal base, and never passes the maximum.
pub backoff_delay_bounds :
    (input : BackoffInput) (random : Option Random) (ordinal : ℕ) {c : BackoffConfig} {d : ℕ}
    → validate input random ≡ ok c
    → backoff_delay c ordinal random ≡ ok d
    → let base = base_of c ordinal in
      (base - spread_of c base ≤ d) × (d ≤ base + spread_of c base) × (d ≤ c.maximum)
backoff_delay_bounds input random ordinal {c} {d} valid h =
    let (v, _) = validate-IsValid input random valid in
    let base = base_of c ordinal in
    ground (
      arith,
      backoff_delay_lem c v ordinal random,
      base_bounds c v ordinal,
      spread-le c v base,
      jittered_bounds c v (base - spread_of c base) (upper_of c base) random {d = d},
    )

-- With a random source that keeps its range, or with none where there is no jitter, there is
-- always a delay: no error and no panic.
pub backoff_delay_total :
    (input : BackoffInput) (random : Option Random) (ordinal : ℕ) {c : BackoffConfig}
    → validate input random ≡ ok c
    → ((r : Random) → random ≡ some r → InRange r)
    → (d : ℕ) × (backoff_delay c ordinal random ≡ ok d)
backoff_delay_total input random ordinal {c} valid good =
    let (v, wanted) = validate-IsValid input random valid in
    let base = base_of c ordinal in
    rw (backoff_delay_lem c v ordinal random) (elim (Bool-cases (c.jitter_permille == 0)) [
      | inl e ↦ (base, rw e)
      | inr e ↦ rw e (drawn_total c v ordinal random (wanted (ground arith)) good)
    ])
