-- ===== src/Requestflow/Prepare/Admission.antt =====
-- internal/requestflow/service.go: what `prepare` does with the admission, and the workflow from
-- there to its end.
use llm2api.Prelude.{
  ℕ, suc, ◌≡◌, refl, ◌∙◌, inl, inr, Bool, true, false, ◌||◌, not, Option, none, some, List, [], ◌∷◌,
  ◌==◌, if◌then◌else◌, Option-cases, Bool-cases, arith, String,
}
use llm2api.Resilience.Retry.{RetryPolicy}
use llm2api.Requestflow.Estimate.{estimate_tokens}
use llm2api.Requestflow.Failures.{Failure, storage_error, workflow_error}
use llm2api.Requestflow.Effects.{
  Effect, admission_acquired, admission_released, request_accepted, result_stored, careful,
  lease_mark, admission_mark, alternates,
}
use llm2api.Requestflow.Capabilities.{validate_capabilities}
use llm2api.Requestflow.Capabilities.Supported.{IsSupported}
use llm2api.Requestflow.Capabilities.Equivalence.{validate_capabilities-IsSupported}
use llm2api.Requestflow.Candidates.{Run, Flow, called, after, Pool, Outcome, done, failed}
use llm2api.Requestflow.Attempt.{Config, Upstream}
use llm2api.Requestflow.Chat.{Answered}
use llm2api.Requestflow.Chat.Steps.{IsIdle}
use llm2api.Requestflow.Chat.Loop.{chat_closes}
use llm2api.Requestflow.Prepare.{
  Model, Command, Resolved, found, unresolved, Accepted, Acceptance, accepted, not_accepted, Intake,
  Prepared, refuse, refuse_accepted, too_long, no_pool, invalid_acceptance, claim_execution,
  link_accepted, read_candidates, check_accepted, accept_request, admit_request, check_model,
  prepare_with, prepare, start, chat_from, chat_request,
}

-- No request is out, no lease is held, and whether the admission is held.
pub record Holds (admitted : Bool) (es : List Effect) : Type 0 where
  pub idle : IsIdle es
  pub admission : alternates admission_mark es admitted ≡ true

-- The admission is held with a run, and not with an error.
abbrev pub Prepares : Outcome Run → Flow → Type 0
Prepares (failed e) f = Holds false f.effects
Prepares (done run) f = Holds true f.effects

abbrev Fine : Prepared → Type 0
Fine q = Prepares q.outcome q.flow

Fine-if : (b : Bool) (x y : Prepared) → Fine x → Fine y → Fine (if b then x else y)
Fine-if true x y s t = s
Fine-if false x y s t = t

-- Effects that neither send nor hold anything.
Holds_released : {es : List Effect} → Holds true es → Holds false (admission_released ∷ es)
unfolding alternates
Holds_released h = record {
  idle = record { settles = h.idle.settles; sends = h.idle.sends; leases = h.idle.leases };
  admission = h.admission;
}

refuse_accepted-Fine :
    (code : String) (e : Failure) (f : Flow)
    → Holds true f.effects
    → Fine (refuse_accepted code e f)
unfolding alternates
refuse_accepted-Fine code e f h = record {
  idle = record { settles = h.idle.settles; sends = h.idle.sends; leases = h.idle.leases };
  admission = h.admission;
}

module _ (i : Intake) (command : Command) where
  claim_execution-Fine :
      (run : Run) (f : Flow) → Holds true f.effects → Fine (claim_execution i command run f)
  unfolding claim_execution alternates
  claim_execution-Fine run f h =
      Fine-if (i.claim f.tick) _ _
        (record {
          idle = record { settles = h.idle.settles; sends = h.idle.sends; leases = h.idle.leases };
          admission = h.admission;
        })
        (refuse_accepted-Fine _ (storage_error "execution_claim_failed") (called f) h)

  stored : {es : List Effect} → Holds true es → Holds true (result_stored ∷ es)
  unfolding alternates
  stored h = record {
    idle = record { settles = h.idle.settles; sends = h.idle.sends; leases = h.idle.leases };
    admission = h.admission;
  }

  link_accepted-Fine :
      (run : Run) (f : Flow) → Holds true f.effects → Fine (link_accepted i command run f)
  unfolding link_accepted
  link_accepted-Fine run f h = go i.sink
    where
      go :
          (m : Option (ℕ → Bool))
          → Fine (elim m [
            | none ↦ claim_execution i command run f
            | some stores ↦
                if stores f.tick
                then claim_execution i command run (after result_stored f)
                else refuse_accepted "acceptance_persistence_failed"
                    (storage_error "acceptance_persistence_failed")
                    (after result_stored f)
          ])
      go none = claim_execution-Fine run f h
      go (some stores) = Fine-if (stores f.tick) _ _ (claim_execution-Fine run _ (stored h)) (
          refuse_accepted-Fine _ (storage_error "acceptance_persistence_failed")
            (after result_stored f) (stored h))

  read_candidates-Fine :
      (m : Model) (a : Accepted) (f : Flow)
      → Holds true f.effects
      → Fine (read_candidates i command m a f)
  unfolding read_candidates
  read_candidates-Fine m a f h = elim (Option-cases (i.candidates f.tick)) [
    | inl e ↦
        rw (read_candidates, e)
          (refuse_accepted-Fine _ (storage_error "candidate_lookup_failed") (called f) h)
    | inr ([], e) ↦ rw (read_candidates, e) (refuse_accepted-Fine _ no_pool (called f) h)
    | inr (c ∷ cs, e) ↦ rw (read_candidates, e) (link_accepted-Fine _ (called f) h)
  ]

  check_accepted-Fine :
      (m : Model) (id : ℕ) (a : Accepted) (f : Flow)
      → Holds true f.effects
      → Fine (check_accepted i command m id a f)
  unfolding check_accepted
  check_accepted-Fine m id a f h = Fine-if a.existing _ _ (Holds_released h) (
      Fine-if (not (a.request_id == id) || a.resource_pool_id == 0) _ _
        (Fine-if (not (a.request_id == 0)) _ _
          (refuse_accepted-Fine _ (invalid_acceptance i command) f h) (Holds_released h))
        (read_candidates-Fine m a f h))

  accept_request-Fine :
      (m : Model) (id : ℕ) (f : Flow)
      → Holds true f.effects
      → Fine (accept_request i command m id f)
  unfolding accept_request alternates
  accept_request-Fine m id f h = go (i.accept f.tick)
    where
      taken : Holds true (request_accepted ∷ f.effects)
      taken = record {
        idle = record { settles = h.idle.settles; sends = h.idle.sends; leases = h.idle.leases };
        admission = h.admission;
      }

      go :
          (a : Acceptance)
          → Fine (elim a [
            | not_accepted e ↦ refuse (workflow_error e) (after admission_released (called f))
            | accepted b ↦ check_accepted i command m id b (after request_accepted f)
          ])
      go (not_accepted e) = Holds_released h
      go (accepted b) = check_accepted-Fine m id b (after request_accepted f) taken

  admit_request-Fine :
      (m : Model) (f : Flow) → Holds false f.effects → Fine (admit_request i command m f)
  unfolding admit_request alternates
  admit_request-Fine m f h = elim (Option-cases (i.admit (suc f.tick))) [
    | inr (e, q) ↦ rw (admit_request, q) h
    | inl q ↦
        rw (admit_request, q)
          (accept_request-Fine m _ (after admission_acquired (called f)) (record {
            idle = record {
              settles = h.idle.settles;
              sends = h.idle.sends;
              leases = h.idle.leases;
            };
            admission = h.admission;
          }))
  ]

  check_model-Fine :
      (m : Model) (f : Flow) → Holds false f.effects → Fine (check_model i command m f)
  unfolding check_model
  check_model-Fine m f h =
      elim (Option-cases (validate_capabilities m.capabilities command.request)) [
        | inr (r, e) ↦ rw (check_model, e) h
        | inl e ↦
            rw (check_model, e)
              (Fine-if (too_long m.capabilities (estimate_tokens command.request)) _ _ h
                (admit_request-Fine m f h))
      ]

  -- `prepare` returns a run with the admission held, or an error without it; in neither case has a
  -- request been sent that is not settled, or is a lease held.
  pub prepare-Prepares :
      (f : Flow)
      → Holds false f.effects
      → Prepares (prepare i command f).outcome (prepare i command f).flow
  unfolding prepare
  prepare-Prepares f h = go (i.resolve f.tick)
    where
      go : (m : Resolved) → Fine (prepare_with i command f m)
      go (unresolved e) = h
      go (found m) = check_model-Fine m (called f) h

  -- `prepare` returns a run only where the model is found, supports the request, and has room for
  -- the estimated tokens.
  pub prepare-IsSupported :
      (f : Flow) (run : Run)
      → (prepare i command f).outcome ≡ done run
      → (m : Model) × (i.resolve f.tick ≡ found m)
        × IsSupported m.capabilities command.request
        × (too_long m.capabilities (estimate_tokens command.request) ≡ false)
  unfolding prepare check_model
  prepare-IsSupported f run h = go (i.resolve f.tick) refl h
    where
      fits :
          (m : Model)
          → (check_model i command m (called f)).outcome ≡ done run
          → IsSupported m.capabilities command.request
            × (too_long m.capabilities (estimate_tokens command.request) ≡ false)
      fits m e = elim (Option-cases (validate_capabilities m.capabilities command.request)) [
        | inr (r, q) ↦ absurd (ground (arith, q, e))
        | inl q ↦ elim (Bool-cases (too_long m.capabilities (estimate_tokens command.request))) [
          | inl t ↦ absurd (ground (arith, q, e, t))
          | inr t ↦ ((validate_capabilities-IsSupported m.capabilities command.request).0 q, t)
        ]
      ]

      go :
          (x : Resolved)
          → i.resolve f.tick ≡ x
          → (prepare_with i command f x).outcome ≡ done run
          → (m : Model) × (i.resolve f.tick ≡ found m)
            × IsSupported m.capabilities command.request
            × (too_long m.capabilities (estimate_tokens command.request) ≡ false)
      go (unresolved e) q k = absurd (ground arith)
      go (found m) q k = let (s, t) = fits m k in (m, q, s, t)

-- What the workflow's calls satisfy at its end: each request was sent with the ones before it
-- settled, each lease and the admission, once acquired, was released once.
pub record IsClean (es : List Effect) : Type 0 where
  pub sends : careful es ≡ true
  pub leases : alternates lease_mark es false ≡ true
  pub admissions : alternates admission_mark es false ≡ true

module _ (p : Pool) (u : Upstream) (config : Config) (retry : RetryPolicy) where
  chat_from-IsClean :
      (f : Flow) (o : Outcome Run)
      → Prepares o f
      → (a : Answered) × (chat_from p u config retry f o ≡ some a) × IsClean a.flow.effects
  unfolding chat_from
  chat_from-IsClean f (failed e) h =
      (_, refl, record { sends = h.idle.sends; leases = h.idle.leases; admissions = h.admission })
  chat_from-IsClean f (done run) h =
      let (a, ends, closed) = chat_closes p u config retry run f h.idle in
      (
        a,
        ends,
        record {
          sends = closed.sends;
          leases = closed.leases;
          admissions = closed.admissions ∙ h.admission;
        },
      )

  -- Whatever the clock, the random source, the repository, the coordinator and the provider answer,
  -- `Chat` ends. It sent each request with the ones before it settled, and each lease and the
  -- admission that it acquired was released, once and before another was acquired.
  pub chat_request-IsClean :
      (i : Intake) (command : Command)
      → (a : Answered) × (chat_request i command p u config retry ≡ some a) × IsClean a.flow.effects
  unfolding chat_request alternates
  chat_request-IsClean i command = chat_from-IsClean _ _ (
      prepare-Prepares i command start (record {
        idle = record { settles = refl; sends = refl; leases = refl };
        admission = refl;
      }))
