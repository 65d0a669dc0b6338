-- ===== src/Requestflow/Recovery.antt =====
-- internal/requestflow/recovery.go: one round of recovery. What the repository and the accounting
-- answer are parameters: a listing is none for an error, and a call is done, fenced or failed.
use llm2api.Prelude.{
  ℕ, ◌≤◌, ◌+◌, ◌≡◌, refl, Bool, true, false, ◌||◌, ◌&&◌, not, Option, none, some, List, [], ◌∷◌,
  length, ℤ, pos, negsuc, ltb, ◌==◌, if◌then◌else◌, arith,
}

pub data CallResult : Type 0 where
  done fenced failed : CallResult

pub record RecoveryResult : Type 0 where
  pub completed : ℕ
  pub failed_accepted : ℕ
  pub uncertain : ℕ

-- The result and the number of errors joined; `invalid` where the input is refused.
pub data Recovered : Type 0 where
  invalid : Recovered
  recovered : RecoveryResult → ℕ → Recovered

-- The calls of one loop that were done, and those that failed; a fenced call is passed over.
unfoldable pub count_calls : (ℕ → CallResult) → List ℕ → ℕ × ℕ
count_calls call [] = (0, 0)
count_calls call (id ∷ ids) =
    let (finished, errors) = count_calls call ids in
    elim (call id) [
      | done ↦ (finished + 1, errors)
      | fenced ↦ (finished, errors)
      | failed ↦ (finished, errors + 1)
    ]

abbrev pub valid_batch : ℤ → Bool
valid_batch (negsuc n) = false
valid_batch (pos n) = ltb 0 n && ltb n 1001

module _ (complete fail_accepted : ℕ → CallResult) (uncertain : ℕ) (fencing_failed : Bool) where
  -- The last call, whose number is kept also with its error.
  abbrev fence_stale : ℕ → ℕ → ℕ → Recovered
  fence_stale finished accepted errors =
      recovered (record { completed = finished; failed_accepted = accepted; uncertain = uncertain })
        (if fencing_failed then errors + 1 else errors)

  unfoldable pub recover_once : ℕ → ℤ → Option (List ℕ) → Option (List ℕ) → Recovered
  recover_once stale_before batch_size completions queued =
      if stale_before == 0 || not (valid_batch batch_size) then invalid else elim completions [
        | none ↦ recovered (record { completed = 0; failed_accepted = 0; uncertain = 0 }) 1
        | some claims ↦
            let (finished, errors) = count_calls complete claims in
            elim queued [
              | none ↦
                  recovered (record { completed = finished; failed_accepted = 0; uncertain = 0 })
                    (errors + 1)
              | some requests ↦
                  let (accepted, more) = count_calls fail_accepted requests in
                  fence_stale finished accepted (errors + more)
            ]
      ]

abbrev pub is_done : CallResult → Bool
is_done done = true
is_done _ = false

abbrev pub is_fenced : CallResult → Bool
is_fenced fenced = true
is_fenced _ = false

abbrev pub is_failed : CallResult → Bool
is_failed failed = true
is_failed _ = false

-- How many of the calls end in a given way.
abbrev pub tally : (CallResult → Bool) → (ℕ → CallResult) → List ℕ → ℕ
tally ends call [] = 0
tally ends call (id ∷ ids) = (if ends (call id) then 1 else 0) + tally ends call ids

module _ (call : ℕ → CallResult) where
  count_calls_done : (ids : List ℕ) → (count_calls call ids).0 ≡ tally is_done call ids
  unfolding count_calls
  count_calls_done [] = refl
  count_calls_done (id ∷ ids) = ground (arith, count_calls_done ids)

  count_calls_failed : (ids : List ℕ) → (count_calls call ids).1 ≡ tally is_failed call ids
  unfolding count_calls
  count_calls_failed [] = refl
  count_calls_failed (id ∷ ids) = ground (arith, count_calls_failed ids)

  tally_all :
      (ids : List ℕ)
      → tally is_done call ids + tally is_fenced call ids + tally is_failed call ids ≡ length ids
  tally_all [] = refl
  tally_all (id ∷ ids) = ground (arith, tally_all ids)

module _ (complete fail_accepted : ℕ → CallResult) (claims requests : List ℕ) (uncertain : ℕ)
    (fencing_failed : Bool) where
  -- The numbers of a round, each by itself, and the items that are in none of them.
  abbrev pub Accounts : RecoveryResult → ℕ → Type 0
  Accounts r e =
      (r.completed ≡ tally is_done complete claims)
      × (r.failed_accepted ≡ tally is_done fail_accepted requests)
      × (r.uncertain ≡ uncertain)
      × (e
          ≡ tally is_failed complete claims
            + tally is_failed fail_accepted requests
            + (if fencing_failed then 1 else 0))
      × (r.completed
            + r.failed_accepted
            + e
            + tally is_fenced complete claims
            + tally is_fenced fail_accepted requests
          ≡ length claims + length requests + (if fencing_failed then 1 else 0))

-- Where the input is valid and both listings succeed, a round returns a result. It counts as
-- completed the claims whose completion was done, as failed the requests that were failed, and as
-- errors the calls of either kind that failed, and one more where the fencing of stale executions
-- failed; every item listed is in exactly one of these numbers or was fenced.
pub recover_once-Accounts :
    (complete fail_accepted : ℕ → CallResult) (uncertain : ℕ) (fencing_failed : Bool)
    (stale_before batch_size : ℕ) (claims requests : List ℕ)
    → 1 ≤ stale_before
    → 1 ≤ batch_size
    → batch_size ≤ 1000
    → (r : RecoveryResult) × (e : ℕ) × (recover_once complete fail_accepted uncertain fencing_failed
          stale_before
          (pos batch_size)
          (some claims)
          (some requests)
        ≡ recovered r e)
      × Accounts complete fail_accepted claims requests uncertain fencing_failed r e
unfolding recover_once
recover_once-Accounts complete fail_accepted uncertain fencing_failed stale batch claims requests h
      i j =
    let done_claims = count_calls_done complete claims in
    let done_requests = count_calls_done fail_accepted requests in
    let failed_claims = count_calls_failed complete claims in
    let failed_requests = count_calls_failed fail_accepted requests in
    let errors : ℕ =
      if fencing_failed
      then (count_calls complete claims).1 + (count_calls fail_accepted requests).1 + 1
      else (count_calls complete claims).1 + (count_calls fail_accepted requests).1 in
    (
      record {
        completed = (count_calls complete claims).0;
        failed_accepted = (count_calls fail_accepted requests).0;
        uncertain = uncertain;
      },
      errors,
      ground (arith, h, i, j),
      (
        done_claims,
        done_requests,
        refl,
        ground (arith, failed_claims, failed_requests),
        ground (
          arith,
          done_claims,
          done_requests,
          failed_claims,
          failed_requests,
          tally_all complete claims,
          tally_all fail_accepted requests,
        ),
      ),
    )
