-- ===== src/Requestflow/Capabilities/Limits.antt =====
-- internal/requestflow/service.go: when a value keeps to a limit.
use mathlib.Core.Path.{subst}
use mathlib.Core.Option.{some-injective}
use llm2api.Prelude.{
  ℕ, zero, suc, ◌≡◌, ◌≢◌, refl, sym, inl, inr, true, false, ◌&&◌, ◌||◌, not, Option, none, some,
  List, [], ◌∷◌, get_elem?, ℤ, less_int, same_int, arith, Bool-cases, String,
}
use llm2api.Requestflow.Capabilities.{
  ParameterLimit, reject_if, is_empty, contains_parameter, below, above, outside,
  validate_integer_parameter,
}
use llm2api.Requestflow.Capabilities.Supported.{Keeps}
use llm2api.Requestflow.Capabilities.Checks.{
  then_check-none, none-then_check, reject_if-none, none-reject_if, or_false, false_or,
}

pub contains_parameter-index :
    (xs : List ℤ) (v : ℤ)
    → contains_parameter xs v ≡ true
    → (i : ℕ) × (x : ℤ) × (get_elem? xs i ≡ some x) × (same_int x v ≡ true)
unfolding contains_parameter
contains_parameter-index [] v h = ground arith
contains_parameter-index (y ∷ ys) v h = elim (Bool-cases (same_int y v)) [
  | inl e ↦ (0, y, refl, e)
  | inr e ↦
      let (i, x, at, same) =
        contains_parameter-index ys v (subst (λ b. (b || contains_parameter ys v) ≡ true) e h) in
      (suc i, x, at, same)
]

pub index-contains_parameter :
    (xs : List ℤ) (v : ℤ) (i : ℕ) (x : ℤ)
    → get_elem? xs i ≡ some x
    → same_int x v ≡ true
    → contains_parameter xs v ≡ true
unfolding contains_parameter
index-contains_parameter [] v i x h e = ground arith
index-contains_parameter (y ∷ ys) v zero x h e =
    subst (λ z. (same_int z v || contains_parameter ys v) ≡ true) (sym (some-injective y x h))
      (rw e refl)
index-contains_parameter (y ∷ ys) v (suc i) x h e = elim (Bool-cases (same_int y v)) [
  | inl q ↦ rw q refl
  | inr q ↦ rw (q, index-contains_parameter ys v i x h e) refl
]

pub listed :
    (xs : List ℤ) (v : ℤ)
    → (not (is_empty xs) && not (contains_parameter xs v)) ≡ false
    → xs ≢ []
    → (i : ℕ) × (x : ℤ) × (get_elem? xs i ≡ some x) × (same_int x v ≡ true)
listed [] v h n = absurd (n refl)
listed (x ∷ xs) v h n = contains_parameter-index (x ∷ xs) v (ground arith)

pub unlisted :
    (xs : List ℤ) (v : ℤ)
    → (xs ≢ [] → (i : ℕ) × (x : ℤ) × (get_elem? xs i ≡ some x) × (same_int x v ≡ true))
    → (not (is_empty xs) && not (contains_parameter xs v)) ≡ false
unlisted [] v h = refl
unlisted (y ∷ xs) v h =
    let (i, x, at, same) = h (λ e. ground arith) in
    rw (index-contains_parameter (y ∷ xs) v i x at same) refl

pub validate_parameter-Keeps :
    (capability : String) (value : Option ℤ) (limit : ParameterLimit)
    → validate_integer_parameter capability value limit ≡ none
    → Keeps limit value
validate_parameter-Keeps capability none limit h = record {
  supported = λ v e. ground arith;
  from = λ v low e. ground arith;
  to = λ v high e. ground arith;
  exact = λ v e. absurd (ground arith);
}
validate_parameter-Keeps capability (some v) limit h =
    let (s, o) = then_check-none (reject_if (not limit.supported) _) _ h in
    let inside = reject_if-none (outside limit v) _ o in
    let (lower, rest) = or_false (below limit.minimum v) _ inside in
    let (upper, one) = or_false (above limit.maximum v) _ rest in
    record {
      supported = λ w e. ground (arith, s);
      from = λ w low e m.
          subst (λ z. less_int z low ≡ false) (some-injective v w e)
            (subst (λ z. below z v ≡ false) m lower);
      to = λ w high e m.
          subst (λ z. less_int high z ≡ false) (some-injective v w e)
            (subst (λ z. above z v ≡ false) m upper);
      exact = λ w e.
          subst
            (λ z.
              limit.exact_values ≢ []
              → (i : ℕ) × (x : ℤ) × (get_elem? limit.exact_values i ≡ some x)
                × (same_int x z ≡ true))
            (some-injective v w e) (listed limit.exact_values v one);
    }

pub Keeps-validate_parameter :
    (capability : String) (value : Option ℤ) (limit : ParameterLimit)
    → Keeps limit value
    → validate_integer_parameter capability value limit ≡ none
Keeps-validate_parameter capability none limit k = refl
Keeps-validate_parameter capability (some v) limit k =
    none-then_check (reject_if (not limit.supported) _) _ (rw (k.supported v refl) refl) (
      none-reject_if (outside limit v) _ (
        false_or (below limit.minimum v) _ (low limit.minimum (λ l. k.from v l refl)) (
          false_or (above limit.maximum v) _ (high limit.maximum (λ l. k.to v l refl))
            (unlisted limit.exact_values v (k.exact v refl)))))
  where
    low : (m : Option ℤ) → ((l : ℤ) → m ≡ some l → less_int v l ≡ false) → below m v ≡ false
    low none h = refl
    low (some l) h = h l refl

    high : (m : Option ℤ) → ((l : ℤ) → m ≡ some l → less_int l v ≡ false) → above m v ≡ false
    high none h = refl
    high (some l) h = h l refl
