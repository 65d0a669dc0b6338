-- ===== src/Routing/Router/Selection.antt =====
-- internal/routing/router.go: what `Select` chooses.
use mathlib.Core.Path.{subst}
use llm2api.Prelude.{
  ℕ, zero, suc, ◌≤◌, ◌≡◌, refl, ap, sym, ◌∙◌, inl, inr, true, some, List, [], ◌∷◌, get_elem?, has,
  Distinct, arith, ◌==◌, Bool-cases, ==→≡, ==_refl, ℤ, pos, negsuc,
}
use llm2api.Routing.Types.{
  Result, ok, ◌>>=◌, CandidateInput, Candidate, Requirements, Random, Exclusion, SelectionMode,
  selection_none, priority_weighted, Decision,
}
use llm2api.Routing.Eligibility.{evaluate_eligibility, validate_requirements}
use llm2api.Routing.Eligibility.Eligible.{IsEligible, evaluate_sound, evaluate_complete}
use llm2api.Routing.Router.{
  Survey, ids, no_reasons, survey, excluded_ids, candidate_by_id, priority_of, effective_priority,
  sort, candidate_priority, weighted_ids, total_weight, draw, choose_from, select, start,
}
use llm2api.Routing.Router.Loop.{
  validated, eligible_ids, Surveyed, Result-cases, excluded_ids-ok, started, survey-Surveyed,
}
use llm2api.Routing.Router.Order.{
  has-sort, candidate_by_id-id, candidate_by_id-get_elem?, get_elem?-candidate_by_id, lowest-le,
  weighted_ids-has,
}
use llm2api.Routing.Router.Weights.{pick-has}

-- The candidate with the ID is one of them, is eligible, and no eligible one comes before it.
pub record IsBest (r : Requirements) (cs : List Candidate) (id : ℕ) : Type 0 where
  pub candidate : Candidate
  pub index : ℕ
  pub listed : get_elem? cs index ≡ some candidate
  pub named : candidate.id ≡ id
  pub eligible : IsEligible r r.excluded_candidates candidate
  pub first :
      (i : ℕ) (c : Candidate)
      → get_elem? cs i ≡ some c
      → IsEligible r r.excluded_candidates c
      → effective_priority candidate.priority ≤ effective_priority c.priority

no_reasons-nil : (es : List Exclusion) → no_reasons es ≡ true → es ≡ []
no_reasons-nil [] h = refl
no_reasons-nil (e ∷ es) h = ground arith

-- The IDs kept by the loop are those of the eligible candidates.
module _ (r : Requirements) (excluded : List ℕ) where
  pub eligible_ids-ids :
      (id : ℕ) (cs : List Candidate)
      → has id (eligible_ids r excluded cs) ≡ true
      → has id (ids cs) ≡ true
  unfolding eligible_ids
  eligible_ids-ids id [] h = h
  eligible_ids-ids id (c ∷ cs) h = ground (arith, eligible_ids-ids id cs)

  eligible_ids_sound :
      (id : ℕ) (cs : List Candidate)
      → Distinct (ids cs)
      → has id (eligible_ids r excluded cs) ≡ true
      → evaluate_eligibility r (candidate_by_id id cs) excluded ≡ []
  unfolding eligible_ids candidate_by_id
  eligible_ids_sound id [] d h = ground arith
  eligible_ids_sound id (c ∷ cs) d h = elim (Bool-cases (c.id == id)) [
    | inl e ↦ rw e (elim (Bool-cases (no_reasons (evaluate_eligibility r c excluded))) [
      | inl p ↦ no_reasons-nil _ p
      | inr p ↦
          ground (arith, p, d.0, ap (λ i. has i (ids cs)) (==→≡ c.id id e), eligible_ids-ids id cs)
    ])
    | inr e ↦ ground (arith, e, eligible_ids_sound id cs)
  ]

  eligible_ids_complete :
      (cs : List Candidate) (i : ℕ) (c : Candidate)
      → get_elem? cs i ≡ some c
      → evaluate_eligibility r c excluded ≡ []
      → has c.id (eligible_ids r excluded cs) ≡ true
  unfolding eligible_ids
  eligible_ids_complete [] i c h e = ground arith
  eligible_ids_complete (b ∷ cs) zero c h e = ground (arith, e, ==_refl c.id)
  eligible_ids_complete (b ∷ cs) (suc i) c h e = ground (arith, eligible_ids_complete cs i c)

-- What the end of `Select` makes of the loop's result.
module _ (r : Requirements) (s : Survey) (v : Surveyed r r.excluded_candidates s) where
  abbrev sorted : List ℕ
  sorted = sort s.eligible

  abbrev lightest : List ℕ
  lightest = weighted_ids (candidate_priority sorted s.seen) sorted s.seen

  has-sorted :
      (i : ℕ) (c : Candidate)
      → get_elem? s.seen i ≡ some c
      → IsEligible r r.excluded_candidates c
      → has c.id sorted ≡ true
  has-sorted i c at e =
      rw (has-sort c.id s.eligible, v.eligible)
        (eligible_ids_complete r r.excluded_candidates s.seen i c at
          (evaluate_complete r r.excluded_candidates c e))

  sorted-eligible :
      (id : ℕ) → has id sorted ≡ true → has id (eligible_ids r r.excluded_candidates s.seen) ≡ true
  sorted-eligible id h = ground (arith, h, has-sort id s.eligible, ap (has id) v.eligible)

  pub lightest-IsBest : (id : ℕ) → has id lightest ≡ true → IsBest r s.seen id
  lightest-IsBest id h =
      let (listed, priority) = weighted_ids-has _ sorted s.seen id h in
      let known = eligible_ids-ids r r.excluded_candidates id s.seen (sorted-eligible id listed) in
      let (i, at) = candidate_by_id-get_elem? id s.seen known in
      record {
        candidate = candidate_by_id id s.seen;
        index = i;
        listed = at;
        named = candidate_by_id-id id s.seen known;
        eligible = evaluate_sound r r.excluded_candidates _ (
            eligible_ids_sound r r.excluded_candidates id s.seen v.distinct
              (sorted-eligible id listed));
        first = λ j c at' e.
            let same = get_elem?-candidate_by_id s.seen j c v.distinct at' in
            subst (λ x. priority_of id s.seen ≤ effective_priority x.priority) same.0
              (subst (λ p. p ≤ priority_of c.id s.seen) (sym priority)
                (lowest-le 1001 sorted s.seen c.id (has-sorted j c at' e)));
      }

  draw-IsBest : (n : ℤ) (id : ℕ) → draw n lightest s.seen ≡ ok id → IsBest r s.seen id
  unfolding draw
  draw-IsBest (negsuc k) id h = ground arith
  draw-IsBest (pos k) id h = lightest-IsBest id (ground (arith, pick-has k lightest s.seen))

-- The candidate selected is a best one; where none is selected none is eligible.
abbrev pub Decided : Requirements → List Candidate → SelectionMode → ℕ → Type 0
Decided r cs priority_weighted id = IsBest r cs id
Decided r cs selection_none id =
    (i : ℕ) (c : Candidate) → get_elem? cs i ≡ some c → ¬ IsEligible r r.excluded_candidates c

ok-injective : (d e : Decision) → ok d ≡ ok e → d ≡ e
ok-injective d e h = ground arith

abbrev weighted_from : Survey → List ℕ → List ℕ
weighted_from s es = weighted_ids (candidate_priority (sort es) s.seen) (sort es) s.seen

abbrev drawn_from : Random → Survey → List ℕ → Result ℕ
drawn_from random s es =
    draw (random (total_weight (weighted_from s es) s.seen)) (weighted_from s es) s.seen

choose-Decided :
    (random : Random) (r : Requirements) (s : Survey) (d : Decision)
    → Surveyed r r.excluded_candidates s
    → (es : List ℕ) → s.eligible ≡ es
    → choose_from random s es ≡ ok d
    → Decided r s.seen d.mode d.selected_candidate_id
unfolding choose_from
choose-Decided random r s d v [] e h =
    subst (λ x. Decided r s.seen x.mode x.selected_candidate_id) (ok-injective _ d h)
      (λ i c at fits. ground (
        arith,
        ap (has c.id) v.eligible,
        ap (has c.id) e,
        eligible_ids_complete r r.excluded_candidates s.seen i c at
            (evaluate_complete r r.excluded_candidates c fits),
      ))
choose-Decided random r s d v (x ∷ xs) e h = elim (Result-cases (drawn_from random s (x ∷ xs))) [
  | inl (k, p) ↦ ground (arith, p, h)
  | inr (id, p) ↦
      subst (λ y. Decided r s.seen y.mode y.selected_candidate_id)
        (ok-injective _ d (sym (ap (λ m. m >>= λ i. ok (decision_of i)) p) ∙ h))
        (draw-IsBest r s v _ id (subst (λ es. drawn_from random s es ≡ ok id) (sym e) p))
]
  where
    decision_of : ℕ → Decision
    decision_of id = record {
      selected_candidate_id = id;
      mode = priority_weighted;
      eligible = sort (x ∷ xs);
      evaluations = s.evaluations;
      next_available_at = s.next_available_at;
    }

-- Where `Select` returns a decision, every candidate was valid and their IDs are distinct. The one
-- selected is among them, is eligible and has the lowest effective priority of the eligible ones;
-- where the mode is none, no candidate is eligible.
pub select-Decided :
    (random : Random) (r : Requirements) (inputs : List CandidateInput) (d : Decision)
    → select random r inputs ≡ ok d
    → (cs : List Candidate) × (validated inputs ≡ ok cs)
      × Distinct (ids cs)
      × Decided r cs d.mode d.selected_candidate_id
unfolding select
select-Decided random r inputs d h = elim (Result-cases (validate_requirements r)) [
  | inl (k, p) ↦ ground (arith, p)
  | inr (u, p) ↦ elim (Result-cases (excluded_ids r.excluded_candidates)) [
    | inl (k, q) ↦ ground (arith, p, q)
    | inr (ks, q) ↦ elim (Result-cases (survey r r.excluded_candidates inputs start)) [
      | inl (k, w) ↦ ground (arith, p, q, w, excluded_ids-ok r.excluded_candidates ks q)
      | inr (s, w) ↦
          let (v, (cs, checked, seen)) =
            survey-Surveyed r r.excluded_candidates inputs start s (started r) w in
          (
            cs,
            checked,
            subst (λ x. Distinct (ids x)) seen v.distinct,
            subst (λ x. Decided r x d.mode d.selected_candidate_id) seen
                (choose-Decided random r s d v s.eligible refl
                  (ground (arith, p, q, w, excluded_ids-ok r.excluded_candidates ks q))),
          )
    ]
  ]
]
