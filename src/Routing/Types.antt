-- ===== src/Routing/Types.antt =====
-- internal/routing/types.go: candidates, requirements and decisions.
-- A candidate ID is a number that keeps the order of the strings, 0 the empty string; the other
-- IDs and capabilities are numbers that are compared only, 0 the empty string.
use llm2api.Prelude.{ℕ, Bool, List, ℤ}

pub data ErrorKind : Type 0 where
  invalid_input invalid_candidate duplicate random_source : ErrorKind

pub data Result {ℓ} (A : Type ℓ) : Type ℓ where
  ok : A → Result A
  err : ErrorKind → Result A

infixl 5 ◌>>=◌
abbrev pub ◌>>=◌ {ℓ κ} : {A : Type ℓ} {B : Type κ} → Result A → (A → Result B) → Result B
ok a >>= f = f a
err e >>= f = err e

-- A candidate as the caller gives it, with the two int32 fields that `validateCandidate` bounds.
pub record CandidateInput : Type 0 where
  pub id : ℕ
  pub model_id : ℕ
  pub resource_pool_id : ℕ
  pub model_published : Bool
  pub credential_authorized : Bool
  pub credential_active : Bool
  pub capabilities : List ℕ
  pub cooldown_until : ℕ
  pub priority : ℤ
  pub weight : ℤ

-- A candidate that passed `validateCandidate`.
pub record Candidate : Type 0 where
  pub id : ℕ
  pub model_id : ℕ
  pub resource_pool_id : ℕ
  pub model_published : Bool
  pub credential_authorized : Bool
  pub credential_active : Bool
  pub capabilities : List ℕ
  pub cooldown_until : ℕ
  pub priority : ℕ
  pub weight : ℕ

pub record Requirements : Type 0 where
  pub model_id : ℕ
  pub resource_pool_id : ℕ
  pub capabilities : List ℕ
  pub excluded_candidates : List ℕ
  pub at : ℕ

-- The answer of `Intn` to a limit.
abbrev pub Random : Type 0
Random = ℕ → ℤ

pub data ExclusionReason : Type 0 where
  model_not_published model_mismatch resource_pool_mismatch missing_capability : ExclusionReason
  credential_unauthorized credential_inactive credential_cooling : ExclusionReason
  excluded_for_attempt : ExclusionReason

pub record Exclusion : Type 0 where
  pub reason : ExclusionReason
  pub capability : ℕ
  pub available_at : ℕ

pub record Evaluation : Type 0 where
  pub candidate_id : ℕ
  pub eligible : Bool
  pub exclusions : List Exclusion

pub data SelectionMode : Type 0 where
  selection_none priority_weighted : SelectionMode

pub record Decision : Type 0 where
  pub selected_candidate_id : ℕ
  pub mode : SelectionMode
  pub eligible : List ℕ
  pub evaluations : List Evaluation
  pub next_available_at : ℕ
