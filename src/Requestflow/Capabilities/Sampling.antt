-- ===== src/Requestflow/Capabilities/Sampling.antt =====
-- internal/requestflow/service.go: when the sampling conditions are met.
use mathlib.Core.Path.{subst}
use mathlib.Core.Option.{some-injective}
use llm2api.Prelude.{
  ◌≡◌, ◌≢◌, refl, ap, inl, inr, Bool, true, false, ◌&&◌, not, Option, none, some, ℤ, less_int,
  same_int, arith, ◌∙◌, Bool-cases,
}
use llm2api.Requestflow.Request.{ChatRequest}
use llm2api.Requestflow.Capabilities.{
  SamplingCondition, Rejection, applies, differs, at_most, more_than, reject_if, check_sampling,
}
use llm2api.Requestflow.Capabilities.Supported.{Samples}
use llm2api.Requestflow.Capabilities.Checks.{
  then_check-none, none-then_check, reject_if-none, none-reject_if,
}

applies-true : (o : Option Bool) (on : Bool) → o ≢ some (not on) → applies o on ≡ true
applies-true none on h = refl
applies-true (some true) true h = refl
applies-true (some true) false h = absurd (h refl)
applies-true (some false) true h = absurd (h refl)
applies-true (some false) false h = refl

applies-ne : (o : Option Bool) (on : Bool) → applies o on ≡ true → o ≢ some (not on)
applies-ne none on h e = ground arith
applies-ne (some true) true h e = ground arith
applies-ne (some true) false h e = ground arith
applies-ne (some false) true h e = ground arith
applies-ne (some false) false h e = ground arith

and_false : (b : Bool) → (b && false) ≡ false
and_false true = refl
and_false false = refl

-- The two tests of a sampling condition.
pub exact_of :
    (b : Bool) (exact temperature : Option ℤ) (r : Rejection) (v t : ℤ)
    → reject_if (b && differs exact temperature) r ≡ none
    → b ≡ true
    → exact ≡ some v
    → temperature ≡ some t
    → same_int t v ≡ true
exact_of b none temperature r v t h on e f = ground arith
exact_of b (some w) none r v t h on e f = ground arith
exact_of b (some w) (some u) r v t h on e f =
    subst (λ z. same_int t z ≡ true) (some-injective w v e)
      (subst (λ z. same_int z w ≡ true) (some-injective u t f)
        (kept (same_int u w) (reject_if-none (b && not (same_int u w)) r h)))
  where
    kept : (x : Bool) → (b && not x) ≡ false → x ≡ true
    kept x k = ground (arith, on)

pub of_exact :
    (b : Bool) (exact temperature : Option ℤ) (r : Rejection)
    → ((v t : ℤ) → b ≡ true → exact ≡ some v → temperature ≡ some t → same_int t v ≡ true)
    → reject_if (b && differs exact temperature) r ≡ none
of_exact false exact temperature r h = refl
of_exact true none temperature r h = refl
of_exact true (some v) none r h = refl
of_exact true (some v) (some t) r h = rw (h v t refl refl refl) refl

pub several_of :
    (b : Bool) (limit temperature n_maximum n : Option ℤ) (r : Rejection) (l t m k : ℤ)
    → reject_if (b && at_most limit temperature && more_than n_maximum n) r ≡ none
    → b ≡ true
    → limit ≡ some l
    → temperature ≡ some t
    → less_int l t ≡ false
    → n_maximum ≡ some m
    → n ≡ some k
    → less_int m k ≡ false
several_of b limit temperature n_maximum n r l t m k h on e f g y z = last (less_int m k) (
    subst (λ o. reject_if (b && at_most limit temperature && o) r ≡ none)
      (ap (λ o. more_than o n) y ∙ ap (λ o. more_than (some m) o) z) h)
  where
    cold : at_most limit temperature ≡ true
    cold = ap (λ o. at_most o temperature) e ∙ ap (λ o. at_most (some l) o) f ∙ ap not g

    last : (x : Bool) → reject_if (b && at_most limit temperature && x) r ≡ none → x ≡ false
    last x k = ground (arith, on, cold)

pub of_several :
    (b : Bool) (limit temperature n_maximum n : Option ℤ) (r : Rejection)
    → ((l t m k : ℤ)
        → b ≡ true
        → limit ≡ some l
        → temperature ≡ some t
        → less_int l t ≡ false
        → n_maximum ≡ some m
        → n ≡ some k
        → less_int m k ≡ false)
    → reject_if (b && at_most limit temperature && more_than n_maximum n) r ≡ none
of_several false limit temperature n_maximum n r h = refl
of_several true none temperature n_maximum n r h = refl
of_several true (some l) none n_maximum n r h = refl
of_several true (some l) (some t) none n r h = none-reject_if _ r (and_false (not (less_int l t)))
of_several true (some l) (some t) (some m) none r h =
    none-reject_if _ r (and_false (not (less_int l t)))
of_several true (some l) (some t) (some m) (some k) r h = elim (Bool-cases (less_int l t)) [
  | inl e ↦ rw e refl
  | inr e ↦
      rw (h l t m k refl refl refl e refl refl)
        (none-reject_if _ r (and_false (not (less_int l t))))
]

pub check_sampling-Samples :
    (on : Bool) (r : ChatRequest) (c : SamplingCondition)
    → check_sampling on r c ≡ none
    → Samples on r c
unfolding check_sampling
check_sampling-Samples on r c h =
    let (a, b) = then_check-none (reject_if (applies c.thinking_enabled on && _) _) _ h in
    record {
      exact = λ v t n e f. exact_of _ _ _ _ v t a (applies-true c.thinking_enabled on n) e f;
      several = λ limit t x k n e f g y z.
          several_of _ _ _ _ _ _ limit t x k b (applies-true c.thinking_enabled on n) e f g y z;
    }

pub Samples-check_sampling :
    (on : Bool) (r : ChatRequest) (c : SamplingCondition)
    → Samples on r c
    → check_sampling on r c ≡ none
unfolding check_sampling
Samples-check_sampling on r c s =
    none-then_check (reject_if (applies c.thinking_enabled on && _) _) _
      (of_exact _ _ _ _ (λ v t e. s.exact v t (applies-ne c.thinking_enabled on e)))
      (of_several _ _ _ _ _ _
        (λ limit t x k e. s.several limit t x k (applies-ne c.thinking_enabled on e)))
