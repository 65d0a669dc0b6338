-- ===== src/Routing/Eligibility/Eligible.antt =====
-- internal/routing/eligibility.go: what it means that no reason excludes a candidate.
use llm2api.Prelude.{ℕ, ◌≤◌, ◌≡◌, refl, ◌↔◌, true, false, List, [], ◌∷◌, arith, has}
use llm2api.Routing.Types.{Candidate, Requirements}
use llm2api.Routing.Eligibility.{missing, evaluate_eligibility}

-- The conditions on a candidate, one by one.
pub record IsEligible (r : Requirements) (excluded : List ℕ) (c : Candidate) : Type 0 where
  pub published : c.model_published ≡ true
  pub model : c.model_id ≡ r.model_id
  pub pool : c.resource_pool_id ≡ r.resource_pool_id
  pub authorized : c.credential_authorized ≡ true
  pub active : c.credential_active ≡ true
  pub cooled : c.cooldown_until ≤ r.at
  pub allowed : has c.id excluded ≡ false
  pub capable : (k : ℕ) → has k r.capabilities ≡ true → has k c.capabilities ≡ true

missing-has :
    (required held : List ℕ) (k : ℕ)
    → missing required held ≡ []
    → has k required ≡ true
    → has k held ≡ true
unfolding missing
missing-has [] held k e h = ground arith
missing-has (c ∷ cs) held k e h = ground (arith, missing-has cs held k)

has-missing :
    (required held : List ℕ)
    → ((k : ℕ) → has k required ≡ true → has k held ≡ true)
    → missing required held ≡ []
unfolding missing
has-missing [] held h = refl
has-missing (c ∷ cs) held h = ground (arith, h c, has-missing cs held (λ k e. ground (arith, h k)))

module _ (r : Requirements) (excluded : List ℕ) (c : Candidate) where
  pub evaluate_sound : evaluate_eligibility r c excluded ≡ [] → IsEligible r excluded c
  unfolding evaluate_eligibility
  evaluate_sound e = record {
    published = ground arith;
    model = ground arith;
    pool = ground arith;
    authorized = ground arith;
    active = ground arith;
    cooled = ground arith;
    allowed = ground arith;
    capable = λ k. missing-has r.capabilities c.capabilities k (ground arith);
  }

  pub evaluate_complete : IsEligible r excluded c → evaluate_eligibility r c excluded ≡ []
  unfolding evaluate_eligibility
  evaluate_complete v = ground (
    arith,
    v.published,
    v.model,
    v.pool,
    v.authorized,
    v.active,
    v.cooled,
    v.allowed,
    has-missing r.capabilities c.capabilities v.capable,
  )

-- A candidate has no exclusion exactly where its model is published and the one required, its pool
-- is the one required, its credential is authorized, active and past its cooldown, its ID is not
-- excluded, and it has every required capability.
pub evaluate-IsEligible :
    (r : Requirements) (excluded : List ℕ) (c : Candidate)
    → (evaluate_eligibility r c excluded ≡ []) ↔ IsEligible r excluded c
evaluate-IsEligible r excluded c = (evaluate_sound r excluded c, evaluate_complete r excluded c)
