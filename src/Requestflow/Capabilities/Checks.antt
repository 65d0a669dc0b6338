-- ===== src/Requestflow/Capabilities/Checks.antt =====
-- internal/requestflow/service.go: checks one after the other, and when all pass.
use mathlib.Core.Path.{subst}
use mathlib.Core.Option.{some-injective}
use llm2api.Prelude.{
  ℕ, zero, suc, ◌≡◌, ◌≢◌, refl, Bool, true, false, ◌&&◌, ◌||◌, not, Option, none, some, All, List,
  [], ◌∷◌, length, get_elem?, arith,
}
use llm2api.Requestflow.Capabilities.{
  Rejection, reject_if, ◌then_check◌, first_rejection, first_of, is_empty,
}

pub then_check-none : (a b : Option Rejection) → (a then_check b) ≡ none → (a ≡ none) × (b ≡ none)
then_check-none none b h = (refl, h)
then_check-none (some r) b h = ground arith

pub none-then_check : (a b : Option Rejection) → a ≡ none → b ≡ none → (a then_check b) ≡ none
none-then_check none b h k = k
none-then_check (some r) b h k = ground arith

pub first_of-none : (cs : List (Option Rejection)) → first_of cs ≡ none → All (λ c. c ≡ none) cs
unfolding first_of
first_of-none [] h = tt
first_of-none (c ∷ cs) h =
    let (a, rest) = then_check-none c (first_of cs) h in (a, first_of-none cs rest)

pub none-first_of : (cs : List (Option Rejection)) → All (λ c. c ≡ none) cs → first_of cs ≡ none
unfolding first_of
none-first_of [] h = refl
none-first_of (c ∷ cs) (a, h) = none-then_check c (first_of cs) a (none-first_of cs h)

pub reject_if-none : (b : Bool) (r : Rejection) → reject_if b r ≡ none → b ≡ false
reject_if-none b r h = ground arith

pub none-reject_if : (b : Bool) (r : Rejection) → b ≡ false → reject_if b r ≡ none
none-reject_if b r h = ground arith

module _ {A : Type 0} (check : A → Option Rejection) where
  pub first_rejection-none :
      (xs : List A)
      → first_rejection check xs ≡ none
      → (i : ℕ) (x : A) → get_elem? xs i ≡ some x
      → check x ≡ none
  unfolding first_rejection
  first_rejection-none [] h i x e = absurd (ground arith)
  first_rejection-none (y ∷ ys) h zero x e =
      subst (λ z. check z ≡ none) (some-injective y x e) (then_check-none (check y) _ h).0
  first_rejection-none (y ∷ ys) h (suc i) x e =
      first_rejection-none ys (then_check-none (check y) _ h).1 i x e

  pub none-first_rejection :
      (xs : List A)
      → ((i : ℕ) (x : A) → get_elem? xs i ≡ some x → check x ≡ none)
      → first_rejection check xs ≡ none
  unfolding first_rejection
  none-first_rejection [] h = refl
  none-first_rejection (y ∷ ys) h =
      none-then_check (check y) _ (h 0 y refl) (none-first_rejection ys (λ i x e. h (suc i) x e))

pub or_false : (a b : Bool) → (a || b) ≡ false → (a ≡ false) × (b ≡ false)
or_false a b h = ground arith

pub false_or : (a b : Bool) → a ≡ false → b ≡ false → (a || b) ≡ false
false_or a b h k = ground arith

module _ {A : Type 0} where
  pub length-is_empty : (xs : List A) → is_empty xs ≡ true → 1 ≡ suc (length xs)
  length-is_empty [] h = refl
  length-is_empty (x ∷ xs) h = ground arith

  pub is_empty-length : (xs : List A) → length xs ≡ 0 → is_empty xs ≡ true
  is_empty-length [] h = refl
  is_empty-length (x ∷ xs) h = ground arith

  pub is_empty-nil : (xs : List A) → is_empty xs ≡ true → xs ≡ []
  is_empty-nil [] h = refl
  is_empty-nil (x ∷ xs) h = ground arith

  pub is_empty_ne : (xs : List A) → xs ≢ [] → is_empty xs ≡ false
  is_empty_ne [] h = absurd (h refl)
  is_empty_ne (x ∷ xs) h = refl

  pub ne_is_empty : (xs : List A) → is_empty xs ≡ false → xs ≢ []
  ne_is_empty [] h e = ground arith
  ne_is_empty (x ∷ xs) h e = ground arith

pub reject_three :
    (a b c : Bool) (r : Rejection)
    → reject_if (not a && b && not c) r ≡ none
    → a ≡ false
    → b ≡ true
    → c ≡ true
reject_three a b c r h e f = ground arith

pub three_reject :
    (a b c : Bool) (r : Rejection)
    → (a ≡ false → b ≡ true → c ≡ true)
    → reject_if (not a && b && not c) r ≡ none
three_reject a b c r h = ground arith
