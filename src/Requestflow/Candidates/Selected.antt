-- ===== src/Requestflow/Candidates/Selected.antt =====
-- internal/requestflow/service.go: the candidate that `selectCandidate` returns, and the number of
-- candidates that are left to choose from.
use mathlib.Core.Path.{subst}
use llm2api.Prelude.{
  ℕ, suc, ◌≤◌, ◌<◌, ◌≡◌, refl, sym, ap, inl, inr, true, false, some, List, [], ◌∷◌, ◌++◌, map,
  length, has, has-append, arith, ◌==◌, Bool-cases, Option-cases, ==→≡, ==_refl, if◌then◌else◌,
}
use llm2api.Routing.Types.{CandidateInput, Random, Decision, Result, ok, err}
use llm2api.Routing.Router.{select}
use llm2api.Routing.Router.Choice.{select-has}
use llm2api.Requestflow.Candidates.{
  Candidate, Run, done, routing_id, route_candidate, requirements, by_id, value_of, selected,
  select_candidate,
}

-- How many of the candidates are not among the excluded IDs.
unfoldable pub remaining : List ℕ → List Candidate → ℕ
remaining excluded [] = 0
remaining excluded (c ∷ cs) =
    if has (routing_id c) excluded then remaining excluded cs else suc (remaining excluded cs)

pub remaining-length : (excluded : List ℕ) (cs : List Candidate) → remaining excluded cs ≤ length cs
unfolding remaining
remaining-length excluded [] = omega arith
remaining-length excluded (c ∷ cs) = ground (arith, remaining-length excluded cs)

pub remaining-append :
    (excluded : List ℕ) (id : ℕ) (cs : List Candidate)
    → remaining (excluded ++ id ∷ []) cs ≤ remaining excluded cs
unfolding remaining
remaining-append excluded id [] = omega arith
remaining-append excluded id (c ∷ cs) =
    ground (arith, has-append (routing_id c) excluded (id ∷ []), remaining-append excluded id cs)

-- Excluding a candidate that was left leaves fewer.
pub remaining_decreases :
    (excluded : List ℕ) (id : ℕ) (cs : List Candidate)
    → has id (map routing_id cs) ≡ true
    → has id excluded ≡ false
    → remaining (excluded ++ id ∷ []) cs < remaining excluded cs
unfolding remaining
remaining_decreases excluded id [] h e = ground arith
remaining_decreases excluded id (c ∷ cs) h e = elim (Bool-cases (id == routing_id c)) [
  | inl p ↦ rw (sym (==→≡ id (routing_id c) p)) (
      ground
        (arith, has-append id excluded (id ∷ []), ==_refl id, e, remaining-append excluded id cs))
  | inr p ↦ ground (
    arith,
    p,
    h,
    has-append (routing_id c) excluded (id ∷ []),
    remaining_decreases excluded id cs,
  )
]

map-route :
    (run : Run) (cs : List Candidate)
    → map CandidateInput.id (map (route_candidate run) cs) ≡ map routing_id cs
map-route run [] = refl
map-route run (c ∷ cs) = ap (λ xs. routing_id c ∷ xs) (map-route run cs)

by_id-id : (id : ℕ) (cs : List Candidate) (d : Candidate) → by_id id cs ≡ some d → routing_id d ≡ id
unfolding by_id
by_id-id id [] d h = ground arith
by_id-id id (c ∷ cs) d h = elim (Option-cases (by_id id cs)) [
  | inl e ↦ ground (arith, e, h, ==→≡ (routing_id c) id)
  | inr (b, e) ↦ ground (arith, e, h, by_id-id id cs b e)
]

-- The map has every listed ID.
by_id_total :
    (id : ℕ) (cs : List Candidate)
    → has id (map routing_id cs) ≡ true
    → (d : Candidate) × (by_id id cs ≡ some d)
unfolding by_id
by_id_total id [] h = ground arith
by_id_total id (c ∷ cs) h = elim (Option-cases (by_id id cs)) [
  | inr (b, e) ↦ (b, rw e refl)
  | inl e ↦ elim (Bool-cases (id == routing_id c)) [
    | inl p ↦ (c, ground (arith, e, ==→≡ id (routing_id c) p, ==_refl id))
    | inr p ↦ let (b, q) = by_id_total id cs (ground (arith, p, h)) in absurd (ground (arith, e, q))
  ]
]

value_of-id :
    (id : ℕ) (cs : List Candidate)
    → has id (map routing_id cs) ≡ true
    → routing_id (value_of (by_id id cs)) ≡ id
value_of-id id cs h = let (d, e) = by_id_total id cs h in ground (arith, e, by_id-id id cs d e)

module _ (run : Run) (excluded : List ℕ) (now : ℕ) (random : Random) (c : Candidate) where
  abbrev Selects : Candidate → Type 0
  Selects b =
      (has (routing_id b) (map routing_id run.candidates) ≡ true)
      × (has (routing_id b) excluded ≡ false)

  selected-Selects :
      (m : Result Decision)
      → select random (requirements run excluded now) (map (route_candidate run) run.candidates) ≡ m
      → selected run m ≡ done c
      → Selects c
  unfolding selected
  selected-Selects (err k) e h = ground arith
  selected-Selects (ok d) e h = elim (Bool-cases (d.selected_candidate_id == 0)) [
    | inl z ↦ ground (arith, z, h)
    | inr z ↦
        let (listed, free) = select-has random _ _ d e z in
        let known : has d.selected_candidate_id (map routing_id run.candidates) ≡ true =
          subst (λ xs. has d.selected_candidate_id xs ≡ true) (map-route run run.candidates)
            listed in
        let same : value_of (by_id d.selected_candidate_id run.candidates) ≡ c =
          ground (arith, z, h) in
        subst Selects same (
          subst (λ x. (has x (map routing_id run.candidates) ≡ true) × (has x excluded ≡ false))
            (sym (value_of-id d.selected_candidate_id run.candidates known)) (known, free))
  ]

  -- A candidate that is selected is one of the run's and is not excluded.
  pub select_candidate_lem :
      select_candidate run excluded now random ≡ done c
      → (has (routing_id c) (map routing_id run.candidates) ≡ true)
        × (has (routing_id c) excluded ≡ false)
  unfolding select_candidate
  select_candidate_lem h = selected-Selects _ refl h
