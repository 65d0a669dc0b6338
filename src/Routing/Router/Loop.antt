-- ===== src/Routing/Router/Loop.antt =====
-- internal/routing/router.go: the loop over the candidates.
use mathlib.Core.List.{append-nil, append_assoc}
use mathlib.Core.Path.{subst}
use llm2api.Prelude.{
  inl, inr, ◌⊎◌, ℕ, zero, suc, ◌≤◌, ◌≡◌, refl, ap, false, some, List, [], ◌∷◌, ◌++◌, get_elem?, has,
  Distinct, has-append, arith, if◌then◌else◌, Bool-cases,
}
use llm2api.Routing.Types.{
  ErrorKind, Result, ok, err, ◌>>=◌, CandidateInput, Candidate, Requirements,
}
use llm2api.Routing.Eligibility.{evaluate_eligibility, validate_candidate, per_mille}
use llm2api.Routing.Router.{Survey, ids, no_reasons, survey_one, survey, excluded_ids, start}

-- The candidates as validated one after the other.
unfoldable pub validated : List CandidateInput → Result (List Candidate)
validated [] = ok []
validated (input ∷ inputs) = do c ← validate_candidate input; cs ← validated inputs; ok (c ∷ cs)

-- The IDs of the candidates without an exclusion, in order.
unfoldable pub eligible_ids : Requirements → List ℕ → List Candidate → List ℕ
eligible_ids r excluded [] = []
eligible_ids r excluded (c ∷ cs) =
    let rest = eligible_ids r excluded cs in
    if no_reasons (evaluate_eligibility r c excluded) then c.id ∷ rest else rest

-- What the loop knows after some of the candidates.
pub record Surveyed (r : Requirements) (excluded : List ℕ) (s : Survey) : Type 0 where
  pub distinct : Distinct (ids s.seen)
  pub eligible : s.eligible ≡ eligible_ids r excluded s.seen
  pub bounded : (i : ℕ) (c : Candidate) → get_elem? s.seen i ≡ some c → c.priority ≤ 1000

pub Result-cases {ℓ} :
    {A : Type ℓ} (m : Result A) → ((k : ErrorKind) × (m ≡ err k)) ⊎ ((a : A) × (m ≡ ok a))
Result-cases (err k) = inl (k, refl)
Result-cases (ok a) = inr (a, refl)

pub excluded_ids-ok : (es ks : List ℕ) → excluded_ids es ≡ ok ks → ks ≡ es
unfolding excluded_ids
excluded_ids-ok [] ks h = ground arith
excluded_ids-ok (e ∷ es) ks h = elim (Result-cases (excluded_ids es)) [
  | inl (k, p) ↦ ground (arith, p)
  | inr (js, p) ↦ ground (arith, p, excluded_ids-ok es js p)
]

Distinct-append : (xs : List ℕ) (x : ℕ) → Distinct xs → has x xs ≡ false → Distinct (xs ++ x ∷ [])
Distinct-append [] x d h = (refl, tt)
Distinct-append (y ∷ ys) x d h =
    (ground (arith, has-append y ys (x ∷ [])), Distinct-append ys x d.1 (ground arith))

pub ids-append : (cs : List Candidate) (c : Candidate) → ids (cs ++ c ∷ []) ≡ ids cs ++ c.id ∷ []
ids-append [] c = refl
ids-append (b ∷ cs) c = ap (◌∷◌ b.id) (ids-append cs c)

eligible_ids-append :
    (r : Requirements) (excluded : List ℕ) (cs : List Candidate) (c : Candidate)
    → eligible_ids r excluded (cs ++ c ∷ [])
      ≡ eligible_ids r excluded cs ++ eligible_ids r excluded (c ∷ [])
unfolding eligible_ids
eligible_ids-append r excluded [] c = refl
eligible_ids-append r excluded (b ∷ cs) c = ground (arith, eligible_ids-append r excluded cs c)

get_elem?-append :
    (cs : List Candidate) (c b : Candidate) (i : ℕ)
    → get_elem? (cs ++ c ∷ []) i ≡ some b
    → c.priority ≤ 1000
    → ((j : ℕ) (a : Candidate) → get_elem? cs j ≡ some a → a.priority ≤ 1000)
    → b.priority ≤ 1000
get_elem?-append [] c b zero h p all = ground arith
get_elem?-append [] c b (suc i) h p all = ground arith
get_elem?-append (d ∷ cs) c b zero h p all = all 0 b h
get_elem?-append (d ∷ cs) c b (suc i) h p all = get_elem?-append cs c b i h p (λ j. all (suc j))

validate_candidate-bound :
    (input : CandidateInput) (c : Candidate) → validate_candidate input ≡ ok c → c.priority ≤ 1000
unfolding validate_candidate per_mille
validate_candidate-bound input c h = ground arith

module _ (r : Requirements) (excluded : List ℕ) where
  survey_one-Surveyed :
      (c : Candidate) (s : Survey)
      → Surveyed r excluded s
      → has c.id (ids s.seen) ≡ false
      → c.priority ≤ 1000
      → Surveyed r excluded (survey_one r excluded c s)
  unfolding survey_one eligible_ids
  survey_one-Surveyed c s v h p = record {
    distinct = rw (ids-append s.seen c) (Distinct-append (ids s.seen) c.id v.distinct h);
    eligible = eligible_after;
    bounded = λ i b e. get_elem?-append s.seen c b i e p v.bounded;
  }
    where
      eligible_after :
          (survey_one r excluded c s).eligible ≡ eligible_ids r excluded (s.seen ++ c ∷ [])
      eligible_after = elim (Bool-cases (no_reasons (evaluate_eligibility r c excluded))) [
        | inl e ↦ ground (arith, e, v.eligible, eligible_ids-append r excluded s.seen c)
        | inr e ↦ ground (
          arith,
          e,
          v.eligible,
          eligible_ids-append r excluded s.seen c,
          append-nil (eligible_ids r excluded s.seen),
        )
      ]

  pub survey-Surveyed :
      (inputs : List CandidateInput) (s s' : Survey)
      → Surveyed r excluded s
      → survey r excluded inputs s ≡ ok s'
      → Surveyed r excluded s'
        × ((cs : List Candidate) × (validated inputs ≡ ok cs) × (s'.seen ≡ s.seen ++ cs))
  unfolding survey validated survey_one
  survey-Surveyed [] s s' v h = (
    subst (λ x. Surveyed r excluded x) (ground (arith, h)) v,
    ([], refl, ground (arith, h, append-nil s.seen)),
  )
  survey-Surveyed (input ∷ inputs) s s' v h = elim (Result-cases (validate_candidate input)) [
    | inl (k, p) ↦ ground (arith, p)
    | inr (c, p) ↦ elim (Bool-cases (has c.id (ids s.seen))) [
      | inl e ↦ ground (arith, p, e)
      | inr e ↦
          let (after, (cs, ok_cs, seen)) =
            survey-Surveyed inputs (survey_one r excluded c s) s'
              (survey_one-Surveyed c s v e (validate_candidate-bound input c p))
              (ground (arith, p, e)) in
          (after, (c ∷ cs, rw (p, ok_cs) refl, seen_after c cs seen))
    ]
  ]
    where
      seen_after :
          (c : Candidate) (cs : List Candidate)
          → s'.seen ≡ (s.seen ++ c ∷ []) ++ cs
          → s'.seen ≡ s.seen ++ c ∷ cs
      seen_after c cs e = rw e (append_assoc s.seen (c ∷ []) cs)

pub started : (r : Requirements) → Surveyed r r.excluded_candidates start
unfolding eligible_ids
started r = record { distinct = tt; eligible = refl; bounded = λ i c h. ground arith }
