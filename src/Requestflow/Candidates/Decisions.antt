-- ===== src/Requestflow/Candidates/Decisions.antt =====
-- internal/requestflow/service.go: the loops of `candidateDecision` and `attemptDecision` end by
-- their own tests, since each round excludes a candidate that was left.
use mathlib.Core.Path.{subst}
use mathlib.Core.List.{append_assoc, append-nil}
use llm2api.Prelude.{
  ℕ, zero, suc, ◌≤◌, ◌<◌, ◌≡◌, refl, sym, ap, ◌∙◌, ◌⊎◌, inl, inr, Bool, true, false, Option, none,
  some, List, [], ◌∷◌, ◌++◌, map, length, length-append, has, arith, Option-cases,
}
use llm2api.Requestflow.Failures.{Failure, AdmissionFailure, earlier_retry_at, admission_error}
use llm2api.Requestflow.Effects.{Effect, lease_acquired}
use llm2api.Requestflow.Candidates.{
  Candidate, Run, Flow, called, after, exclude, Acquired, granted, refused, Pool, Outcome, done,
  failed, routing_id, select_candidate, Decided, no_health, no_capacity, candidate_decision, enough,
  attempt_decision, capacity_of,
}
use llm2api.Requestflow.Candidates.Selected.{
  remaining, remaining-length, remaining_decreases, select_candidate_lem,
}

pub Outcome-cases {ℓ} :
    {A : Type ℓ} (m : Outcome A) → ((e : Failure) × (m ≡ failed e)) ⊎ ((a : A) × (m ≡ done a))
Outcome-cases (failed e) = inl (e, refl)
Outcome-cases (done a) = inr (a, refl)

Acquired-cases : (m : Acquired) → (m ≡ granted) ⊎ ((e : AdmissionFailure) × (m ≡ refused e))
Acquired-cases granted = inl refl
Acquired-cases (refused e) = inr (e, refl)

-- What a decision does to the state: IDs are only appended to the excluded ones, no more candidates
-- are left than before, and a candidate that is returned is one of the run's and not excluded.
pub record Decides (run : Run) (f : Flow) (d : Decided) : Type 0 where
  pub extends : (ids : List ℕ) × (d.flow.excluded ≡ f.excluded ++ ids)
  pub fewer : remaining d.flow.excluded run.candidates ≤ remaining f.excluded run.candidates
  pub chosen :
      (c : Candidate)
      → d.outcome ≡ done c
      → (has (routing_id c) (map routing_id run.candidates) ≡ true)
        × (has (routing_id c) d.flow.excluded ≡ false)

pub length-Decides :
    (run : Run) (f : Flow) (d : Decided)
    → Decides run f d
    → length f.excluded ≤ length d.flow.excluded
length-Decides run f d s =
    let (ids, e) = s.extends in rw e (omega (arith, length-append f.excluded ids))

abbrev Extends : List ℕ → List ℕ → Type 0
Extends xs ys = (ids : List ℕ) × (ys ≡ xs ++ ids)

unchanged : (xs : List ℕ) → Extends xs xs
unchanged xs = ([], sym (append-nil xs))

appended : (xs ids : List ℕ) {ys : List ℕ} → Extends (xs ++ ids) ys → Extends xs ys
appended xs ids (more, e) = (ids ++ more, e ∙ append_assoc xs ids more)

lengthened : (xs : List ℕ) {ys zs : List ℕ} → Extends xs ys → Extends ys zs → Extends xs zs
lengthened xs (ids, e) (more, e') =
    (ids ++ more, e' ∙ ap (λ l. l ++ more) e ∙ append_assoc xs ids more)

module _ (p : Pool) (run : Run) (fuel : ℕ) (unhealthy : Bool) (f : Flow) where
  abbrev chooses : Outcome Candidate
  chooses = select_candidate run f.excluded (p.now f.tick) (p.random f.tick)

  abbrev decides : Option Decided
  decides = candidate_decision p run (suc fuel) unhealthy f.excluded f

  -- The three ways a round goes on.
  no_candidate :
      (e : Failure)
      → chooses ≡ failed e
      → decides
        ≡ some (record {
          flow = called f;
          outcome = failed (no_health unhealthy none e (p.now (suc f.tick)));
        })
  unfolding candidate_decision
  no_candidate e q = rw (candidate_decision, q) refl

  healthy :
      (c : Candidate) (g : ℕ)
      → chooses ≡ done c
      → p.health (suc f.tick) c ≡ some g
      → decides
        ≡ some (record {
          flow = called (called f);
          outcome = done (record c { health_generation = g });
        })
  unfolding candidate_decision
  healthy c g q r = rw (candidate_decision, q, r) refl

  cooling :
      (c : Candidate)
      → chooses ≡ done c
      → p.health (suc f.tick) c ≡ none
      → decides
        ≡ candidate_decision p run fuel true
            (f.excluded ++ routing_id c ∷ [])
            (exclude (routing_id c) (called (called f)))
  unfolding candidate_decision
  cooling c q r = rw (candidate_decision, q, r) refl

abbrev Selects : Run → Flow → Candidate → Type 0
Selects run f c =
    (has (routing_id c) (map routing_id run.candidates) ≡ true)
    × (has (routing_id c) f.excluded ≡ false)

-- The generation does not matter.
Selects-done :
    (run : Run) (f : Flow) (c b : Candidate) (g : ℕ)
    → Selects run f c
    → done (record c { health_generation = g }) ≡ done b
    → Selects run f b
Selects-done run f c b g s e =
    subst (λ m. elim m [ failed x ↦ Unit {0} | done x ↦ Selects run f x ]) e s

module _ (p : Pool) (run : Run) where
  pub candidate_decision_total :
      (fuel : ℕ) (unhealthy : Bool) (f : Flow)
      → remaining f.excluded run.candidates < fuel
      → (d : Decided) × (candidate_decision p run fuel unhealthy f.excluded f ≡ some d)
        × Decides run f d
        × (d.flow.effects ≡ f.effects)
  candidate_decision_total zero unhealthy f h = absurd (omega arith)
  candidate_decision_total (suc fuel) unhealthy f h =
      elim (Outcome-cases (select_candidate run f.excluded (p.now f.tick) (p.random f.tick))) [
        | inl (e, q) ↦ (
          _,
          no_candidate p run fuel unhealthy f e q,
          record {
            extends = unchanged f.excluded;
            fewer = omega arith;
            chosen = λ c e. ground arith;
          },
          refl,
        )
        | inr (c, q) ↦ elim (Option-cases (p.health (suc f.tick) c)) [
          | inr (g, r) ↦ (
            _,
            healthy p run fuel unhealthy f c g q r,
            record {
              extends = unchanged f.excluded;
              fewer = omega arith;
              chosen =
                  λ b e. Selects-done run f c b g (select_candidate_lem run f.excluded _ _ c q) e;
            },
            refl,
          )
          | inl r ↦
              let (listed, free) = select_candidate_lem run f.excluded _ _ c q in
              let less = remaining_decreases f.excluded (routing_id c) run.candidates listed free in
              let (d, done_by, s, same) =
                candidate_decision_total fuel true (exclude (routing_id c) (called (called f)))
                  (omega arith) in
              (
                d,
                cooling p run fuel unhealthy f c q r ∙ done_by,
                record {
                  extends = appended f.excluded (routing_id c ∷ []) s.extends;
                  fewer = omega (arith, s.fewer, less);
                  chosen = s.chosen;
                },
                same,
              )
        ]
      ]

module _ (p : Pool) (run : Run) (fuel : ℕ) (earliest : Option ℕ) (full : Bool) (f : Flow)
    (d : Decided) (inner : candidate_decision p run (enough run) false f.excluded f ≡ some d) where
  abbrev attempts : Option Decided
  attempts = attempt_decision p run (suc fuel) earliest full f

  undecided :
      (e : Failure)
      → d.outcome ≡ failed e
      → attempts
        ≡ some (record {
          flow = called d.flow;
          outcome = failed (no_capacity full earliest e (p.now d.flow.tick));
        })
  unfolding attempt_decision
  undecided e q = rw (attempt_decision, inner, q) refl

  leased :
      (c : Candidate)
      → d.outcome ≡ done c
      → p.acquire d.flow.tick c ≡ granted
      → attempts ≡ some (record { flow = after lease_acquired d.flow; outcome = done c })
  unfolding attempt_decision
  leased c q r = rw (attempt_decision, inner, q, r) refl

  not_admitted :
      (c : Candidate) (e : AdmissionFailure)
      → d.outcome ≡ done c
      → p.acquire d.flow.tick c ≡ refused e
      → capacity_of e ≡ none
      → attempts ≡ some (record { flow = called d.flow; outcome = failed (admission_error e) })
  unfolding attempt_decision
  not_admitted c e q r s = rw (attempt_decision, inner, q, r, s) refl

  exhausted :
      (c : Candidate) (e : AdmissionFailure) (at : ℕ)
      → d.outcome ≡ done c
      → p.acquire d.flow.tick c ≡ refused e
      → capacity_of e ≡ some at
      → attempts
        ≡ attempt_decision p run fuel
            (earlier_retry_at earliest (some at))
            true
            (exclude (routing_id c) (called d.flow))
  unfolding attempt_decision
  exhausted c e at q r s = rw (attempt_decision, inner, q, r, s) refl

-- The effects of a decision: a lease where a candidate is returned, and none else.
abbrev pub leasing : Outcome Candidate → List Effect → List Effect
leasing (failed e) es = es
leasing (done c) es = lease_acquired ∷ es

abbrev pub Attempting : Pool → Run → ℕ → Option ℕ → Bool → Flow → Type 0
Attempting p run fuel earliest full f =
    (d : Decided) × (attempt_decision p run fuel earliest full f ≡ some d)
    × Decides run f d
    × (d.flow.effects ≡ leasing d.outcome f.effects)

module _ (p : Pool) (run : Run) where
  -- With fuel for more rounds than candidates are left, `attemptDecision` ends by its own tests,
  -- whatever the clock, the random source, the health permits and the coordinator answer. It only
  -- appends IDs to the excluded ones. A lease was acquired exactly where a candidate is returned, and
  -- that candidate is one of the run's and is not excluded.
  pub attempt_decision_total :
      (fuel : ℕ) (earliest : Option ℕ) (full : Bool) (f : Flow)
      → remaining f.excluded run.candidates < fuel
      → Attempting p run fuel earliest full f
  attempt_decision_total zero earliest full f h = absurd (omega arith)
  attempt_decision_total (suc fuel) earliest full f h =
      let (d, inner, s, same) =
        candidate_decision_total p run (enough run) false f
          (omega (arith, remaining-length f.excluded run.candidates)) in
      elim (Outcome-cases d.outcome) [
        | inl (e, q) ↦ (
          _,
          undecided p run fuel earliest full f d inner e q,
          record {
            extends = s.extends;
            fewer = omega (arith, s.fewer);
            chosen = λ c e. ground arith;
          },
          same,
        )
        | inr (c, q) ↦ elim (Acquired-cases (p.acquire d.flow.tick c)) [
          | inl r ↦ (
            _,
            leased p run fuel earliest full f d inner c q r,
            record { extends = s.extends; fewer = s.fewer; chosen = λ b e. s.chosen b (q ∙ e) },
            ap (λ es. lease_acquired ∷ es) same,
          )
          | inr (e, r) ↦ elim (Option-cases (capacity_of e)) [
            | inl t ↦ (
              _,
              not_admitted p run fuel earliest full f d inner c e q r t,
              record { extends = s.extends; fewer = s.fewer; chosen = λ b e. ground arith },
              same,
            )
            | inr (at, t) ↦
                let (listed, free) = s.chosen c q in
                let less =
                  remaining_decreases d.flow.excluded (routing_id c) run.candidates listed free in
                let (d', done_by, s', effects) =
                  attempt_decision_total fuel (earlier_retry_at earliest (some at)) true
                    (exclude (routing_id c) (called d.flow)) (omega (arith, s.fewer, less)) in
                (
                  d',
                  exhausted p run fuel earliest full f d inner c e at q r t ∙ done_by,
                  record {
                    extends =
                        lengthened f.excluded s.extends
                          (appended d.flow.excluded (routing_id c ∷ []) s'.extends);
                    fewer = omega (arith, s.fewer, s'.fewer, less);
                    chosen = s'.chosen;
                  },
                  effects ∙ ap (leasing d'.outcome) same,
                )
          ]
        ]
      ]
