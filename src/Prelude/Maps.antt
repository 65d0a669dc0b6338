-- ===== src/Prelude/Maps.antt =====
-- Go maps with keys that are compared only: association lists with at most one entry for a key.
use Prim.Native.Nat.{ℕ, ◌+◌, ◌≤◌}
use mathlib.Core.Path.{◌≡◌, refl}
use mathlib.Core.Option.{Option, none, some}
use mathlib.Core.List.{List, [], ◌∷◌}
use native.Mathlib.Omega.{arith}
use llm2api.Prelude.Tests.{◌==◌, if◌then◌else◌}
use llm2api.Prelude.Lists.{length}

abbrev pub Assoc {ℓ} : Type ℓ → Type ℓ
Assoc V = List (ℕ × V)

module _ {ℓ} {V : Type ℓ} where
  abbrev pub find : ℕ → Assoc V → Option V
  find k [] = none
  find k ((j, v) ∷ m) = if j == k then some v else find k m

  -- m[k] = v
  unfoldable pub assign : ℕ → V → Assoc V → Assoc V
  assign k v [] = (k, v) ∷ []
  assign k v ((j, w) ∷ m) = if j == k then (k, v) ∷ m else (j, w) ∷ assign k v m

  -- delete(m, k)
  unfoldable pub erase : ℕ → Assoc V → Assoc V
  erase k [] = []
  erase k ((j, v) ∷ m) = let rest = erase k m in if j == k then rest else (j, v) ∷ rest

  pub find-assign :
      (k j : ℕ) (v : V) (m : Assoc V)
      → find j (assign k v m) ≡ (if k == j then some v else find j m)
  unfolding assign
  find-assign k j v [] = refl
  find-assign k j v ((i, w) ∷ m) = ground (arith, find-assign k j v m)

  pub find-erase :
      (k j : ℕ) (m : Assoc V) → find j (erase k m) ≡ (if k == j then none else find j m)
  unfolding erase
  find-erase k j [] = ground arith
  find-erase k j ((i, w) ∷ m) = ground (arith, find-erase k j m)

  pub length-assign_new :
      (k : ℕ) (v : V) (m : Assoc V) → find k m ≡ none → length (assign k v m) ≡ length m + 1
  unfolding assign
  length-assign_new k v [] h = omega arith
  length-assign_new k v ((i, w) ∷ m) h = ground (arith, length-assign_new k v m)

  pub length-assign : (k : ℕ) (v : V) (m : Assoc V) → length (assign k v m) ≤ length m + 1
  unfolding assign
  length-assign k v [] = omega arith
  length-assign k v ((i, w) ∷ m) = ground (arith, length-assign k v m)

  pub length-erase : (k : ℕ) (m : Assoc V) → length (erase k m) ≤ length m
  unfolding erase
  length-erase k [] = omega arith
  length-erase k ((i, w) ∷ m) = ground (arith, length-erase k m)
