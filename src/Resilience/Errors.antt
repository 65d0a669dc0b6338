-- ===== src/Resilience/Errors.antt =====
-- internal/resilience/types.go: the error kinds, and the outcome of a call that may fail.

pub data ErrorKind : Type 0 where
  invalid_configuration invalid_input random_source : ErrorKind

-- `panic` stands for a call through a nil interface.
pub data Outcome {ℓ} (A : Type ℓ) : Type ℓ where
  ok : A → Outcome A
  err : ErrorKind → Outcome A
  panic : Outcome A

infixl 5 ◌>>=◌ ◌>>◌
abbrev pub ◌>>=◌ {ℓ κ} : {A : Type ℓ} {B : Type κ} → Outcome A → (A → Outcome B) → Outcome B
ok a >>= f = f a
err e >>= f = err e
panic >>= f = panic

abbrev pub ◌>>◌ {ℓ} : {B : Type ℓ} → Outcome (Unit {0}) → Outcome B → Outcome B
m >> k = m >>= λ _. k
