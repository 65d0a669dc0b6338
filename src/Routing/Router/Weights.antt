-- ===== src/Routing/Router/Weights.antt =====
-- internal/routing/router.go: the draw by weight.
use llm2api.Prelude.{ℕ, ◌+◌, ◌-◌, ◌≤◌, ◌<◌, ◌≡◌, true, List, [], ◌∷◌, ◌++◌, has, arith, ==_refl}
use llm2api.Routing.Types.{Candidate}
use llm2api.Routing.Router.{weight_of, total_weight, pick}

-- Every ID that can be picked has a weight.
pub weight_positive : (x : ℕ) (cs : List Candidate) → 1 ≤ weight_of x cs
weight_positive x cs = ground arith

pub total_weight_positive :
    (x : ℕ) (xs : List ℕ) (cs : List Candidate) → has x xs ≡ true → 1 ≤ total_weight xs cs
unfolding total_weight
total_weight_positive x [] cs h = ground arith
total_weight_positive x (y ∷ ys) cs h = omega (arith, weight_positive y cs)

-- A number below the total weight picks an ID of the list.
pub pick-has :
    (n : ℕ) (xs : List ℕ) (cs : List Candidate)
    → n < total_weight xs cs
    → has (pick n xs cs) xs ≡ true
unfolding pick total_weight
pick-has n [] cs h = ground arith
pick-has n (x ∷ xs) cs h = ground (arith, ==_refl x, pick-has (n - weight_of x cs) xs cs)

-- An ID is picked by as many numbers as its weight: by those from the total weight of the IDs
-- before it up to that sum and its own weight.
pub pick-share :
    (before after : List ℕ) (id n : ℕ) (cs : List Candidate)
    → total_weight before cs ≤ n
    → n < total_weight before cs + weight_of id cs
    → pick n (before ++ id ∷ after) cs ≡ id
unfolding pick total_weight
pick-share [] after id n cs low high = ground arith
pick-share (x ∷ before) after id n cs low high =
    ground (arith, pick-share before after id (n - weight_of x cs) cs)
