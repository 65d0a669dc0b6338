-- ===== src/Routing/Router.antt =====
-- internal/routing/router.go: `Select` picks a candidate of the lowest priority, at random by
-- weight. `seen` holds the candidates of the loop's earlier rounds, whose IDs are the keys of the
-- source's `seen`. An index or a weight sum stays far below the range of an int.
use llm2api.Prelude.{
  ℕ, zero, suc, ◌+◌, ◌-◌, Bool, true, false, ◌&&◌, ◌||◌, Option, none, some, List, [], ◌∷◌, ◌++◌,
  map, ℤ, pos, negsuc, ltb, leb, ◌==◌, if◌then◌else◌, has,
}
use llm2api.Routing.Types.{
  ErrorKind, invalid_input, duplicate, random_source, Result, ok, err, ◌>>=◌, CandidateInput,
  Candidate, Requirements, Random, ExclusionReason, credential_cooling, Exclusion, Evaluation,
  SelectionMode, selection_none, priority_weighted, Decision,
}
use llm2api.Routing.Eligibility.{evaluate_eligibility, validate_requirements, validate_candidate}
pub mod Loop
pub mod Order
pub mod Weights
pub mod Selection
pub mod Progress
pub mod Choice

-- The state of the loop over the candidates.
pub record Survey : Type 0 where
  pub seen : List Candidate
  pub evaluations : List Evaluation
  pub eligible : List ℕ
  pub next_available_at : ℕ

abbrev pub ids : List Candidate → List ℕ
ids = map Candidate.id

abbrev pub no_reasons : List Exclusion → Bool
no_reasons [] = true
no_reasons (x ∷ xs) = false

abbrev pub is_cooling : ExclusionReason → Bool
is_cooling credential_cooling = true
is_cooling _ = false

-- The time from which a candidate that only cools down is available, if it is the earliest so far.
unfoldable pub earlier : ℕ → List Exclusion → ℕ
earlier at (x ∷ []) =
    if is_cooling x.reason && (at == 0 || ltb x.available_at at) then x.available_at else at
earlier at [] = at
earlier at (x ∷ y ∷ xs) = at

unfoldable pub survey_one : Requirements → List ℕ → Candidate → Survey → Survey
survey_one r excluded c s =
    let reasons = evaluate_eligibility r c excluded in
    record {
      seen = s.seen ++ c ∷ [];
      evaluations =
          s.evaluations
          ++ record { candidate_id = c.id; eligible = no_reasons reasons; exclusions = reasons }
            ∷ [];
      eligible = if no_reasons reasons then s.eligible ++ c.id ∷ [] else s.eligible;
      next_available_at = earlier s.next_available_at reasons;
    }

unfoldable pub survey : Requirements → List ℕ → List CandidateInput → Survey → Result Survey
survey r excluded [] s = ok s
survey r excluded (input ∷ inputs) s = do
  c ← validate_candidate input
  if has c.id (ids s.seen)
      then err duplicate
      else survey r excluded inputs (survey_one r excluded c s)

-- The keys of `excluded`.
unfoldable pub excluded_ids : List ℕ → Result (List ℕ)
excluded_ids [] = ok []
excluded_ids (id ∷ rest) =
    let keys = excluded_ids rest in
    if id == 0 then err invalid_input else (keys >>= λ ks. ok (id ∷ ks))

-- sort.Slice by ID; the IDs are unique.
abbrev pub insert : ℕ → List ℕ → List ℕ
insert x [] = x ∷ []
insert x (y ∷ ys) = if ltb x y then x ∷ y ∷ ys else y ∷ insert x ys

abbrev pub sort : List ℕ → List ℕ
sort [] = []
sort (x ∷ xs) = insert x (sort xs)

abbrev pub no_candidate : Candidate
no_candidate = record {
  id = 0;
  model_id = 0;
  resource_pool_id = 0;
  model_published = false;
  credential_authorized = false;
  credential_active = false;
  capabilities = [];
  cooldown_until = 0;
  priority = 0;
  weight = 0;
}

unfoldable pub candidate_by_id : ℕ → List Candidate → Candidate
candidate_by_id id [] = no_candidate
candidate_by_id id (c ∷ cs) = if c.id == id then c else candidate_by_id id cs

abbrev pub effective_priority : ℕ → ℕ
effective_priority p = if p == 0 then 100 else p

abbrev pub effective_weight : ℕ → ℕ
effective_weight w = if w == 0 then 1 else w

abbrev pub priority_of : ℕ → List Candidate → ℕ
priority_of id cs = effective_priority ((candidate_by_id id cs).priority)

abbrev pub weight_of : ℕ → List Candidate → ℕ
weight_of id cs = effective_weight ((candidate_by_id id cs).weight)

-- The loop of `candidatePriority` from the lowest so far.
unfoldable pub lowest_from : ℕ → List ℕ → List Candidate → ℕ
lowest_from lowest [] cs = lowest
lowest_from lowest (id ∷ eligible) cs =
    lowest_from (if ltb (priority_of id cs) lowest then priority_of id cs else lowest) eligible cs

abbrev pub candidate_priority : List ℕ → List Candidate → ℕ
candidate_priority eligible cs = lowest_from 1001 eligible cs

-- The candidates of the given priority.
unfoldable pub weighted_ids : ℕ → List ℕ → List Candidate → List ℕ
weighted_ids priority [] cs = []
weighted_ids priority (id ∷ eligible) cs =
    let rest = weighted_ids priority eligible cs in
    if priority_of id cs == priority then id ∷ rest else rest

unfoldable pub total_weight : List ℕ → List Candidate → ℕ
total_weight [] cs = 0
total_weight (id ∷ weighted) cs = weight_of id cs + total_weight weighted cs

-- The last loop: the candidate in whose share of the weights the number lies; "" for none.
unfoldable pub pick : ℕ → List ℕ → List Candidate → ℕ
pick selected [] cs = 0
pick selected (id ∷ weighted) cs =
    if ltb selected (weight_of id cs) then id else pick (selected - weight_of id cs) weighted cs

unfoldable pub draw : ℤ → List ℕ → List Candidate → Result ℕ
draw (negsuc n) weighted cs = err random_source
draw (pos n) weighted cs =
    if leb (total_weight weighted cs) n then err random_source else ok (pick n weighted cs)

abbrev pub undecided : Survey → Decision
undecided s = record {
  selected_candidate_id = 0;
  mode = selection_none;
  eligible = s.eligible;
  evaluations = s.evaluations;
  next_available_at = s.next_available_at;
}

-- From the end of the loop over the candidates on.
unfoldable pub choose_from : Random → Survey → List ℕ → Result Decision
choose_from random s [] = ok (undecided s)
choose_from random s (first ∷ rest) =
    let eligible = sort (first ∷ rest) in
    let weighted = weighted_ids (candidate_priority eligible s.seen) eligible s.seen in
    draw (random (total_weight weighted s.seen)) weighted s.seen >>= λ id. ok (record {
      selected_candidate_id = id;
      mode = priority_weighted;
      eligible = eligible;
      evaluations = s.evaluations;
      next_available_at = s.next_available_at;
    })

abbrev pub choose : Random → Survey → Result Decision
choose random s = choose_from random s s.eligible

unfoldable pub new_router : Option Random → Result Random
new_router none = err random_source
new_router (some random) = ok random

abbrev pub start : Survey
start = record { seen = []; evaluations = []; eligible = []; next_available_at = 0 }

unfoldable pub select : Random → Requirements → List CandidateInput → Result Decision
select random r inputs = do
  unique ← validate_requirements r
  excluded ← excluded_ids r.excluded_candidates
  s ← survey r excluded inputs start
  choose random s
