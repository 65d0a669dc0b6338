-- ===== src/Routing/Router/Choice.antt =====
-- internal/routing/router.go: what a caller of `Select` knows of the ID it is given.
use mathlib.Core.Path.{subst}
use llm2api.Prelude.{
  ℕ, zero, suc, ◌≡◌, refl, true, false, some, List, [], ◌∷◌, map, has, get_elem?, arith, ◌==◌, inl,
  inr, ==_refl,
}
use llm2api.Routing.Types.{
  ok, CandidateInput, Candidate, Requirements, Random, Decision, SelectionMode, selection_none,
  priority_weighted,
}
use llm2api.Routing.Eligibility.{validate_requirements, validate_candidate}
use llm2api.Routing.Router.{Survey, ids, survey, excluded_ids, choose_from, select, start}
use llm2api.Routing.Router.Loop.{validated, Result-cases}
use llm2api.Routing.Router.Selection.{IsBest, Decided, select-Decided}

-- An ID is given by a decision of the weighted mode only.
choose_from_none :
    (random : Random) (s : Survey) (es : List ℕ) (d : Decision)
    → choose_from random s es ≡ ok d
    → d.mode ≡ selection_none
    → d.selected_candidate_id ≡ 0
unfolding choose_from
choose_from_none random s [] d h e = ground (arith, h, e)
choose_from_none random s (x ∷ xs) d h e = ground (arith, h, e)

select_none :
    (random : Random) (r : Requirements) (inputs : List CandidateInput) (d : Decision)
    → select random r inputs ≡ ok d
    → d.mode ≡ selection_none
    → d.selected_candidate_id ≡ 0
unfolding select
select_none random r inputs d h e = elim (Result-cases (validate_requirements r)) [
  | inl (k, p) ↦ ground (arith, p)
  | inr (u, p) ↦ elim (Result-cases (excluded_ids r.excluded_candidates)) [
    | inl (k, q) ↦ ground (arith, p, q)
    | inr (ks, q) ↦ elim (Result-cases (survey r ks inputs start)) [
      | inl (k, w) ↦ ground (arith, p, q, w)
      | inr (s, w) ↦ choose_from_none random s s.eligible d (ground (arith, p, q, w, h)) e
    ]
  ]
]

validate_candidate-id :
    (input : CandidateInput) (c : Candidate) → validate_candidate input ≡ ok c → c.id ≡ input.id
unfolding validate_candidate
validate_candidate-id input c h = ground (arith, h)

-- Validation keeps the IDs.
ids-validated :
    (inputs : List CandidateInput) (cs : List Candidate)
    → validated inputs ≡ ok cs
    → ids cs ≡ map CandidateInput.id inputs
unfolding validated
ids-validated [] cs h = ground (arith, h)
ids-validated (input ∷ inputs) cs h = elim (Result-cases (validate_candidate input)) [
  | inl (k, p) ↦ ground (arith, p, h)
  | inr (c, p) ↦ elim (Result-cases (validated inputs)) [
    | inl (k, q) ↦ ground (arith, p, q, h)
    | inr (rest, q) ↦
        ground (arith, p, q, h, validate_candidate-id input c p, ids-validated inputs rest q)
  ]
]

get_elem?-has :
    (cs : List Candidate) (i : ℕ) (c : Candidate)
    → get_elem? cs i ≡ some c
    → has c.id (ids cs) ≡ true
get_elem?-has [] i c h = ground arith
get_elem?-has (b ∷ cs) zero c h = ground (arith, ==_refl c.id)
get_elem?-has (b ∷ cs) (suc i) c h = ground (arith, get_elem?-has cs i c h)

module _ (r : Requirements) (inputs : List CandidateInput) (cs : List Candidate) where
  IsBest-has :
      (id : ℕ)
      → validated inputs ≡ ok cs
      → IsBest r cs id
      → (has id (map CandidateInput.id inputs) ≡ true) × (has id r.excluded_candidates ≡ false)
  IsBest-has id v b =
      subst
        (λ x. (has x (map CandidateInput.id inputs) ≡ true) × (has x r.excluded_candidates ≡ false))
        b.named
        (
          subst (λ xs. has b.candidate.id xs ≡ true) (ids-validated inputs cs v)
              (get_elem?-has cs b.index b.candidate b.listed),
          b.eligible.allowed,
        )

  Decided-has :
      (mode : SelectionMode) (id : ℕ)
      → validated inputs ≡ ok cs
      → (mode ≡ selection_none → id ≡ 0)
      → (id == 0) ≡ false
      → Decided r cs mode id
      → (has id (map CandidateInput.id inputs) ≡ true) × (has id r.excluded_candidates ≡ false)
  Decided-has selection_none id v z e d = ground (arith, z refl, e)
  Decided-has priority_weighted id v z e d = IsBest-has id v d

-- An ID that `Select` gives is that of a candidate it was given, and is not excluded.
pub select-has :
    (random : Random) (r : Requirements) (inputs : List CandidateInput) (d : Decision)
    → select random r inputs ≡ ok d
    → (d.selected_candidate_id == 0) ≡ false
    → (has d.selected_candidate_id (map CandidateInput.id inputs) ≡ true)
      × (has d.selected_candidate_id r.excluded_candidates ≡ false)
select-has random r inputs d h e =
    let (cs, v, _, decided) = select-Decided random r inputs d h in
    Decided-has r inputs cs d.mode d.selected_candidate_id v (select_none random r inputs d h) e
      decided
