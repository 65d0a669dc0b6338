-- ===== src/Admission/Types.antt =====
-- internal/admission/types.go: the requests, tickets and results of the admission queue.
-- A ticket or user ID is a number, 0 the empty string: IDs are compared for equality only. Times
-- and durations are in nanoseconds.
use llm2api.Prelude.{ℕ, zero, suc, Bool, List, ℤ, pos, negsuc}

pub data ErrorKind : Type 0 where
  invalid_configuration invalid_request queue_full duplicate_ticket : ErrorKind

pub data Result {ℓ} (A : Type ℓ) : Type ℓ where
  ok : A → Result A
  err : ErrorKind → Result A

infixl 5 ◌>>=◌
abbrev pub ◌>>=◌ {ℓ κ} : {A : Type ℓ} {B : Type κ} → Result A → (A → Result B) → Result B
ok a >>= f = f a
err e >>= f = err e

-- The configured integers.
pub record ConfigInput : Type 0 where
  pub max_queued : ℤ
  pub max_active : ℤ
  pub max_queue_wait : ℤ

-- The configuration that passed `validate`.
pub record Config : Type 0 where
  pub max_queued : ℕ
  pub max_active : ℕ
  pub max_queue_wait : ℕ

positive : ℤ → Result ℕ
positive (negsuc n) = err invalid_configuration
positive (pos zero) = err invalid_configuration
positive (pos (suc n)) = ok (suc n)

unfoldable pub validate : ConfigInput → Result Config
unfolding positive
validate c = do
  queued ← positive c.max_queued
  active ← positive c.max_active
  wait ← positive c.max_queue_wait
  ok (record { max_queued = queued; max_active = active; max_queue_wait = wait })

pub record Request : Type 0 where
  pub id : ℕ
  pub user_id : ℕ
  pub queue_timeout : ℤ

pub record Ticket : Type 0 where
  pub id : ℕ
  pub user_id : ℕ
  pub enqueued_at : ℕ
  pub deadline : ℕ

pub record Admission : Type 0 where
  pub ticket : Ticket
  pub admitted_at : ℕ

pub record Expiration : Type 0 where
  pub ticket : Ticket
  pub expired_at : ℕ

pub record Cancellation : Type 0 where
  pub ticket : Ticket
  pub canceled_at : ℕ
  pub was_active : Bool

pub record Dispatch : Type 0 where
  pub expired : List Expiration
  pub admitted : List Admission
