-- ===== src/Resilience/Backoff.antt =====
-- internal/resilience/backoff.go: the exponential backoff with jitter, in int64 arithmetic.
-- A duration is a number of nanoseconds. `BackoffInput` has the configured integers, `validate`
-- turns them into numbers; int64 sums and products keep their wrap-around at 2 ^ 64.
use llm2api.Prelude.{
  ℕ, zero, suc, ◌+◌, ◌-◌, ◌*◌, ◌/◌, ◌%◌, ◌^◌, Bool, ◌||◌, ◌&&◌, Option, none, some, ℤ, pos, negsuc,
  ltb, leb, ◌==◌, if◌then◌else◌,
}
use llm2api.Resilience.Errors.{Outcome, ok, err, panic, invalid_configuration, random_source, ◌>>=◌}
pub mod Bounds
pub mod Ideal
pub mod Delay

-- The configuration as it is written, with signed fields.
pub record BackoffInput : Type 0 where
  pub initial : ℤ
  pub maximum : ℤ
  pub multiplier_numerator : ℤ
  pub multiplier_denominator : ℤ
  pub jitter_permille : ℤ

-- The configuration once validated: every field is a number.
pub record BackoffConfig : Type 0 where
  pub initial : ℕ
  pub maximum : ℕ
  pub multiplier_numerator : ℕ
  pub multiplier_denominator : ℕ
  pub jitter_permille : ℕ

-- Int63n: it is asked for a value below its argument, and its answer is checked.
abbrev pub Random : Type 0
Random = ℕ → ℤ

abbrev pub max_int64 : ℕ
max_int64 = 9223372036854775807

abbrev pub i64 : ℕ → ℕ
i64 n = n % 2 ^ 64

-- a - b on int64.
abbrev pub sub64 : ℕ → ℕ → ℕ
sub64 a b = i64 (a + (2 ^ 64 - b))

abbrev pub is_none {ℓ} : {A : Type ℓ} → Option A → Bool
is_none none = Bool.true
is_none (some a) = Bool.false

-- The tests of `validate` on the fields, once none of them is negative.
validate_numbers : BackoffConfig → Option Random → Outcome BackoffConfig
validate_numbers c random =
    if c.initial == 0 || ltb c.maximum c.initial
    then err invalid_configuration
    else if c.multiplier_denominator == 0
        || ltb 1000 c.multiplier_denominator
        || ltb c.multiplier_numerator c.multiplier_denominator
        || ltb 1000 c.multiplier_numerator
        || ltb (c.multiplier_denominator * 100) c.multiplier_numerator
    then err invalid_configuration
    else if ltb 1000 c.jitter_permille
    then err invalid_configuration
    else if ltb (max_int64 / 2000) c.maximum
    then err invalid_configuration
    else if ltb 0 c.jitter_permille && is_none random
    then err invalid_configuration
    else ok c

-- A negative field fails one of the sign and order tests, all of one error kind.
natural : ℤ → Outcome ℕ
natural (pos n) = ok n
natural (negsuc n) = err invalid_configuration

unfoldable pub validate : BackoffInput → Option Random → Outcome BackoffConfig
unfolding validate_numbers natural
validate input random = do
  initial ← natural input.initial
  maximum ← natural input.maximum
  numerator ← natural input.multiplier_numerator
  denominator ← natural input.multiplier_denominator
  jitter ← natural input.jitter_permille
  validate_numbers
      (record {
        initial = initial;
        maximum = maximum;
        multiplier_numerator = numerator;
        multiplier_denominator = denominator;
        jitter_permille = jitter;
      })
      random

-- One round of the loop: base * numerator / denominator rounded up, capped by the maximum.
unfoldable pub next_base : BackoffConfig → ℕ → ℕ
next_base c base =
    let grown =
      sub64 (i64 (i64 (base * c.multiplier_numerator) + c.multiplier_denominator)) 1
      / c.multiplier_denominator in
    if ltb c.maximum grown then c.maximum else grown

-- The loop, over the rounds left; `break` leaves it at the maximum.
unfoldable pub grow : BackoffConfig → ℕ → ℕ → ℕ
grow c zero base = base
grow c (suc rounds) base =
    let rest = grow c rounds (next_base c base) in
    if ltb base c.maximum
    then (if ltb (i64 (c.maximum * c.multiplier_denominator) / c.multiplier_numerator) base
        then c.maximum
        else rest)
    else base

-- lower + offset, where the offset must lie in the width that was asked for.
offset_from : ℕ → ℕ → ℤ → Outcome ℕ
offset_from lower width (negsuc n) = err random_source
offset_from lower width (pos offset) =
    if leb width offset then err random_source else ok (i64 (lower + offset))

unfoldable pub jittered : ℕ → ℕ → Option Random → Outcome ℕ
unfolding offset_from
jittered lower upper none = panic
jittered lower upper (some random) =
    let width = i64 (sub64 upper lower + 1) in offset_from lower width (random width)

unfoldable pub backoff_delay : BackoffConfig → ℕ → Option Random → Outcome ℕ
unfolding jittered
backoff_delay c retry_ordinal random =
    let base = grow c (retry_ordinal - 1) c.initial in
    let spread = i64 (base * c.jitter_permille) / 1000 in
    let upper = i64 (base + spread) in
    if c.jitter_permille == 0
    then ok base
    else jittered (sub64 base spread) (if ltb c.maximum upper then c.maximum else upper) random
