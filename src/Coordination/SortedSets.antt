-- ===== src/Coordination/SortedSets.antt =====
-- Sorted sets as the server provides them to internal/coordination/lease_script.go: a member has at
-- most one score, a time in milliseconds.
use llm2api.Prelude.{
  ℕ, ◌+◌, ◌≤◌, ◌<◌, ◌≡◌, Bool, true, false, Option, none, some, ltb, ◌==◌, if◌then◌else◌,
}

abbrev pub is_some : Option ℕ → Bool
is_some none = false
is_some (some s) = true

-- Of a score, what a time leaves.
abbrev pub later_than : ℕ → Option ℕ → Option ℕ
later_than now none = none
later_than now (some s) = if ltb now s then some s else none

pub record SortedSets : Type 1 where
  pub Members : Type 0
  -- No such key.
  pub empty : Members
  -- ZREMRANGEBYSCORE key -inf now
  pub expire_until : ℕ → Members → Members
  -- ZSCORE key member
  pub score : ℕ → Members → Option ℕ
  -- ZCARD key
  pub card : Members → ℕ
  -- The score of ZRANGE key i i WITHSCORES.
  pub nth_score : ℕ → Members → Option ℕ
  -- The score of ZREVRANGE key 0 0 WITHSCORES.
  pub highest : Members → Option ℕ
  -- ZADD key score member
  pub add : ℕ → ℕ → Members → Members
  -- ZREM key member
  pub remove : ℕ → Members → Members

-- The documented behaviour that the scripts rely on.
pub record Laws (S : SortedSets) : Type 0 where
  pub score-expire :
      (m now : ℕ) (z : S.Members) → S.score m (S.expire_until now z) ≡ later_than now (S.score m z)
  pub score-add :
      (m n s : ℕ) (z : S.Members)
      → S.score m (S.add s n z) ≡ (if n == m then some s else S.score m z)
  pub score-remove :
      (m n : ℕ) (z : S.Members) → S.score m (S.remove n z) ≡ (if n == m then none else S.score m z)
  pub card-add :
      (s n : ℕ) (z : S.Members)
      → S.card (S.add s n z) ≡ (if is_some (S.score n z) then S.card z else S.card z + 1)
  pub nth-lt : (i : ℕ) (z : S.Members) → i < S.card z → (s : ℕ) × (S.nth_score i z ≡ some s)
  pub highest-le : (m s t : ℕ) (z : S.Members) → S.score m z ≡ some s → S.highest z ≡ some t → s ≤ t
  pub highest-empty : (m : ℕ) (z : S.Members) → S.highest z ≡ none → S.score m z ≡ none
  pub score-empty : (m : ℕ) → S.score m S.empty ≡ none
