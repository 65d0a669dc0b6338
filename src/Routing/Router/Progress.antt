-- ===== src/Routing/Router/Progress.antt =====
-- internal/routing/router.go: when `Select` returns a decision.
use mathlib.Core.List.{append_assoc}
use mathlib.Core.Path.{subst}
use llm2api.Prelude.{
  ℕ, ◌≤◌, ◌<◌, ◌≡◌, refl, ap, sym, ◌∙◌, inl, inr, true, false, List, [], ◌∷◌, ◌++◌, has, Distinct,
  has-append, arith, ==_refl, ℤ, pos,
}
use llm2api.Routing.Types.{
  ok, ◌>>=◌, CandidateInput, Candidate, Requirements, Random, Decision, priority_weighted,
}
use llm2api.Routing.Eligibility.{validate_requirements, validate_candidate}
use llm2api.Routing.Router.{
  Survey, ids, survey, survey_one, excluded_ids, priority_of, sort, candidate_priority,
  weighted_ids, total_weight, pick, draw, choose_from, select, start,
}
use llm2api.Routing.Router.Loop.{
  validated, Surveyed, Result-cases, survey-Surveyed, started, ids-append,
}
use llm2api.Routing.Router.Order.{
  has-sort, lowest-le, lowest-attained, has-weighted_ids, candidate_by_id-get_elem?,
}
use llm2api.Routing.Router.Selection.{eligible_ids-ids}
use llm2api.Routing.Router.Weights.{total_weight_positive}

draw_total :
    (n : ℤ) (weighted : List ℕ) (cs : List Candidate) (k : ℕ)
    → n ≡ pos k
    → k < total_weight weighted cs
    → (id : ℕ) × (draw n weighted cs ≡ ok id)
unfolding draw
draw_total n weighted cs k e h = (pick k weighted cs, rw e (ground arith))

-- A random source that keeps to the documented range of `Intn`.
abbrev pub InRange : Random → Type 0
InRange random = (n : ℕ) → 1 ≤ n → (k : ℕ) × (random n ≡ pos k) × (k < n)

excluded_ids_total : (es : List ℕ) → has 0 es ≡ false → excluded_ids es ≡ ok es
unfolding excluded_ids
excluded_ids_total [] h = refl
excluded_ids_total (e ∷ es) h = ground (arith, excluded_ids_total es)

Distinct-fresh : (xs : List ℕ) (y : ℕ) (ys : List ℕ) → Distinct (xs ++ y ∷ ys) → has y xs ≡ false
Distinct-fresh [] y ys d = refl
Distinct-fresh (x ∷ xs) y ys d =
    ground (arith, d.0, has-append x xs (y ∷ ys), ==_refl y, Distinct-fresh xs y ys d.1)

survey_total :
    (r : Requirements) (excluded : List ℕ) (inputs : List CandidateInput) (cs : List Candidate)
    (s : Survey)
    → validated inputs ≡ ok cs
    → Distinct (ids s.seen ++ ids cs)
    → (s' : Survey) × (survey r excluded inputs s ≡ ok s')
unfolding survey validated survey_one
survey_total r excluded [] cs s h d = (s, refl)
survey_total r excluded (input ∷ inputs) cs s h d = elim (Result-cases (validate_candidate input)) [
  | inl (k, p) ↦ ground (arith, p)
  | inr (c, p) ↦ elim (Result-cases (validated inputs)) [
    | inl (k, q) ↦ ground (arith, p, q)
    | inr (rest, q) ↦
        let same : cs ≡ c ∷ rest = ground (arith, p, q, h) in
        let d' = subst (λ x. Distinct (ids s.seen ++ ids x)) same d in
        let (s', done) = survey_total r excluded inputs rest (survey_one r excluded c s) q (
          subst Distinct
            (sym (
              ap (λ x. x ++ ids rest) (ids-append s.seen c)
              ∙ append_assoc (ids s.seen) (c.id ∷ []) (ids rest)))
            d') in
        (s', ground (arith, p, done, Distinct-fresh (ids s.seen) c.id (ids rest) d'))
  ]
]

module _ (r : Requirements) (s : Survey) (v : Surveyed r r.excluded_candidates s) where
  priority_bounded : (x : ℕ) → has x (sort s.eligible) ≡ true → priority_of x s.seen ≤ 1000
  priority_bounded x h =
      let known : has x (ids s.seen) ≡ true =
        eligible_ids-ids r r.excluded_candidates x s.seen
          (ground (arith, h, has-sort x s.eligible, ap (has x) v.eligible)) in
      let (i, at) = candidate_by_id-get_elem? x s.seen known in ground (arith, v.bounded i _ at)

  -- An eligible candidate makes the weight that is drawn from positive.
  heavy :
      (x : ℕ)
      → has x (sort s.eligible) ≡ true
      → 1
        ≤ total_weight
            (weighted_ids (candidate_priority (sort s.eligible) s.seen) (sort s.eligible) s.seen)
            s.seen
  heavy x h = elim (lowest-attained 1001 (sort s.eligible) s.seen) [
    | inl p ↦ omega (arith, p, lowest-le 1001 (sort s.eligible) s.seen x h, priority_bounded x h)
    | inr (z, listed, p) ↦
        total_weight_positive z _ s.seen (has-weighted_ids _ (sort s.eligible) s.seen z listed p)
  ]

  choose_total :
      (random : Random) (es : List ℕ)
      → InRange random
      → s.eligible ≡ es
      → (d : Decision) × (choose_from random s es ≡ ok d)
  unfolding choose_from
  choose_total random [] range e = (_, refl)
  choose_total random (x ∷ xs) range e =
      let positive =
        subst
          (λ es.
            1
            ≤ total_weight (weighted_ids (candidate_priority (sort es) s.seen) (sort es) s.seen)
                s.seen)
          e (heavy x (rw (has-sort x s.eligible, e) (ground (arith, ==_refl x)))) in
      let (k, answer, below) = range _ positive in
      let (id, drawn) = draw_total _ _ s.seen k answer below in
      (decision_of id, ap (λ m. m >>= λ i. ok (decision_of i)) drawn)
    where
      decision_of : ℕ → Decision
      decision_of id = record {
        selected_candidate_id = id;
        mode = priority_weighted;
        eligible = sort (x ∷ xs);
        evaluations = s.evaluations;
        next_available_at = s.next_available_at;
      }

-- For valid requirements, valid candidates with distinct IDs, no empty excluded ID and a random
-- source that keeps to its range, `Select` returns a decision.
pub select_total :
    (random : Random) (r : Requirements) (inputs : List CandidateInput) (u : List ℕ)
    (cs : List Candidate)
    → InRange random
    → validate_requirements r ≡ ok u
    → has 0 r.excluded_candidates ≡ false
    → validated inputs ≡ ok cs
    → Distinct (ids cs)
    → (d : Decision) × (select random r inputs ≡ ok d)
unfolding select
select_total random r inputs u cs range p e h distinct =
    let (s, w) = survey_total r r.excluded_candidates inputs cs start h distinct in
    let v = (survey-Surveyed r r.excluded_candidates inputs start s (started r) w).0 in
    let (d, chosen) = choose_total r s v random s.eligible range refl in
    (d, ground (arith, p, excluded_ids_total r.excluded_candidates e, w, chosen))
