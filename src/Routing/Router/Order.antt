-- ===== src/Routing/Router/Order.antt =====
-- internal/routing/router.go: sorting the eligible IDs, and looking candidates up by ID.
use llm2api.Prelude.{
  ℕ, zero, suc, ◌≤◌, ◌≡◌, refl, ◌⊎◌, inl, inr, true, some, List, [], ◌∷◌, get_elem?, has, Distinct,
  arith, ltb, Bool-cases, ==→≡, ==_refl, ap, sym, ◌==◌, if◌then◌else◌,
}
use llm2api.Routing.Types.{Candidate}
use llm2api.Routing.Router.{
  ids, insert, sort, candidate_by_id, priority_of, lowest_from, weighted_ids,
}

has-insert : (x y : ℕ) (ys : List ℕ) → has x (insert y ys) ≡ (if x == y then true else has x ys)
has-insert x y [] = refl
has-insert x y (z ∷ ys) = ground (arith, has-insert x y ys)

pub has-sort : (x : ℕ) (xs : List ℕ) → has x (sort xs) ≡ has x xs
has-sort x [] = refl
has-sort x (y ∷ ys) = ground (arith, has-insert x y (sort ys), has-sort x ys)

-- An ID among the candidates' is that of the candidate found.
pub candidate_by_id-id :
    (id : ℕ) (cs : List Candidate) → has id (ids cs) ≡ true → (candidate_by_id id cs).id ≡ id
unfolding candidate_by_id
candidate_by_id-id id [] h = ground arith
candidate_by_id-id id (c ∷ cs) h = ground (arith, candidate_by_id-id id cs)

pub candidate_by_id-get_elem? :
    (id : ℕ) (cs : List Candidate)
    → has id (ids cs) ≡ true
    → (i : ℕ) × (get_elem? cs i ≡ some (candidate_by_id id cs))
unfolding candidate_by_id
candidate_by_id-get_elem? id [] h = ground arith
candidate_by_id-get_elem? id (c ∷ cs) h = elim (Bool-cases (c.id == id)) [
  | inl e ↦ (0, ground (arith, e))
  | inr e ↦
      let (i, found) = candidate_by_id-get_elem? id cs (ground (arith, e)) in
      (suc i, ground (arith, e, found))
]

-- With distinct IDs a candidate is the one found by its ID.
pub get_elem?-candidate_by_id :
    (cs : List Candidate) (i : ℕ) (c : Candidate)
    → Distinct (ids cs)
    → get_elem? cs i ≡ some c
    → (candidate_by_id c.id cs ≡ c) × (has c.id (ids cs) ≡ true)
unfolding candidate_by_id
get_elem?-candidate_by_id [] i c d h = ground arith
get_elem?-candidate_by_id (b ∷ cs) zero c d h = ground arith
get_elem?-candidate_by_id (b ∷ cs) (suc i) c d h = ground (arith, get_elem?-candidate_by_id cs i c)

-- The lowest priority is at most the bound and that of each ID listed.
pub lowest-bound :
    (lowest : ℕ) (eligible : List ℕ) (cs : List Candidate) → lowest_from lowest eligible cs ≤ lowest
unfolding lowest_from
lowest-bound lowest [] cs = omega arith
lowest-bound lowest (id ∷ eligible) cs =
    ground (arith, lowest-bound lowest eligible cs, lowest-bound (priority_of id cs) eligible cs)

pub lowest-le :
    (lowest : ℕ) (eligible : List ℕ) (cs : List Candidate) (x : ℕ)
    → has x eligible ≡ true
    → lowest_from lowest eligible cs ≤ priority_of x cs
unfolding lowest_from
lowest-le lowest [] cs x h = ground arith
lowest-le lowest (id ∷ eligible) cs x h =
    let m = if ltb (priority_of id cs) lowest then priority_of id cs else lowest in
    elim (Bool-cases (x == id)) [
      | inl e ↦ rw (==→≡ x id e) (omega (arith, lowest-bound m eligible cs, least id))
      | inr e ↦ lowest-le m eligible cs x (ground (arith, e))
    ]
  where
    least :
        (i : ℕ)
        → (if ltb (priority_of i cs) lowest then priority_of i cs else lowest) ≤ priority_of i cs
    least i = ground arith

-- The lowest priority is the bound, or that of an ID listed.
pub lowest-attained :
    (lowest : ℕ) (eligible : List ℕ) (cs : List Candidate)
    → (lowest_from lowest eligible cs ≡ lowest)
      ⊎ ((x : ℕ) × (has x eligible ≡ true) × (priority_of x cs ≡ lowest_from lowest eligible cs))
unfolding lowest_from
lowest-attained lowest [] cs = inl refl
lowest-attained lowest (id ∷ eligible) cs = elim (Bool-cases (ltb (priority_of id cs) lowest)) [
  | inl e ↦ rw e (elim (lowest-attained (priority_of id cs) eligible cs) [
    | inl p ↦ inr (id, ground arith, sym p)
    | inr (x, h, p) ↦ inr (x, ground arith, p)
  ])
  | inr e ↦ rw e (elim (lowest-attained lowest eligible cs) [
    | inl p ↦ inl p
    | inr (x, h, p) ↦ inr (x, ground arith, p)
  ])
]

-- What is picked out has the priority and is listed.
pub weighted_ids-has :
    (p : ℕ) (eligible : List ℕ) (cs : List Candidate) (x : ℕ)
    → has x (weighted_ids p eligible cs) ≡ true
    → (has x eligible ≡ true) × (priority_of x cs ≡ p)
unfolding weighted_ids
weighted_ids-has p [] cs x h = ground arith
weighted_ids-has p (id ∷ eligible) cs x h = ground (arith, weighted_ids-has p eligible cs x)

pub has-weighted_ids :
    (p : ℕ) (eligible : List ℕ) (cs : List Candidate) (x : ℕ)
    → has x eligible ≡ true
    → priority_of x cs ≡ p
    → has x (weighted_ids p eligible cs) ≡ true
unfolding weighted_ids
has-weighted_ids p [] cs x h e = ground arith
has-weighted_ids p (id ∷ eligible) cs x h e = elim (Bool-cases (x == id)) [
  | inl s ↦ ground (arith, ap (λ i. priority_of i cs) (==→≡ x id s), ==_refl id)
  | inr s ↦ ground (arith, s, has-weighted_ids p eligible cs x)
]
