-- ===== src/Requestflow/Attempt/Sound.antt =====
-- internal/requestflow/chat.go: what an attempt leaves behind, step by step.
use llm2api.Prelude.{
  ℕ, suc, ◌≡◌, refl, ◌∙◌, Bool, true, false, ◌&&◌, ◌||◌, not, Option, none, String, some, ◌∷◌, ℤ,
  ltb, leb, if◌then◌else◌, arith,
}
use llm2api.Requestflow.Request.{Usage, ChatResponse}
use llm2api.Requestflow.Failures.{ErrorKind, Failure, storage_error}
use llm2api.Requestflow.Effects.{
  Effect, lease_released, lease_reconciled, attempt_completed, request_completed, result_stored,
  neither, attempt_sending, request_sent, attempt_created, settled, careful, lease_mark,
  admission_mark, alternates,
}
use llm2api.Requestflow.Candidates.{
  Candidate, Run, Flow, called, after, Pool, Outcome, done, failed,
}
use llm2api.Requestflow.Attempt.{
  Config, Sent, no_response, response, Saved, saved, fenced, not_saved, Upstream, Attempted,
  build_upstream, read_response, response_usage, reconcile_lease, refund, fail_attempt,
  mark_uncertain, uncertain_error, uncertain_saving, refused_by, finish_attempt, complete_attempt,
  receive, send, work, fails, answer, non_stream_attempt,
}

-- The errors after which a workflow may make another attempt.
abbrev pub goes_on : ErrorKind → Bool
goes_on ErrorKind.uncertain = false
goes_on ErrorKind.storage_unavailable = false
goes_on _ = true

-- From a state on no request is sent, no lease or admission changes hands and nothing is excluded.
pub record Quiet (f g : Flow) : Type 0 where
  pub kept : g.excluded ≡ f.excluded
  pub sends : careful g.effects ≡ careful f.effects
  pub leases :
      (open? : Bool) → alternates lease_mark g.effects open? ≡ alternates lease_mark f.effects open?
  pub admissions :
      (open? : Bool)
      → alternates admission_mark g.effects open? ≡ alternates admission_mark f.effects open?

-- The request of an attempt that fails with an error to go on after is settled.
abbrev pub Settles : Outcome Usage → Flow → Type 0
Settles (done usage) f = Unit {0}
Settles (failed e) f = goes_on e.kind ≡ true → settled f.effects ≡ true

pub record IsSound (f : Flow) (a : Attempted) : Type 0 where
  pub quiet : Quiet f a.flow
  pub settles : Settles a.outcome a.flow

Quiet-trans : {f g h : Flow} → Quiet f g → Quiet g h → Quiet f h
Quiet-trans q r = record {
  kept = r.kept ∙ q.kept;
  sends = r.sends ∙ q.sends;
  leases = λ o. r.leases o ∙ q.leases o;
  admissions = λ o. r.admissions o ∙ q.admissions o;
}

Quiet-refl : (f : Flow) → Quiet f f
Quiet-refl f = record { kept = refl; sends = refl; leases = λ o. refl; admissions = λ o. refl }

Quiet-called : (f : Flow) → Quiet f (called f)
Quiet-called f = record { kept = refl; sends = refl; leases = λ o. refl; admissions = λ o. refl }

-- A call that is not one of those.
Quiet-after :
    {f g : Flow} (e : Effect)
    → lease_mark e ≡ neither
    → admission_mark e ≡ neither
    → careful (e ∷ g.effects) ≡ careful g.effects
    → Quiet f g
    → Quiet f (after e g)
unfolding alternates
Quiet-after e l a c q =
    Quiet-trans q
      (record { kept = refl; sends = c; leases = λ o. rw l refl; admissions = λ o. rw a refl })

after-Quiet : {f g : Flow} {a : Attempted} → Quiet f g → IsSound g a → IsSound f a
after-Quiet q s = record { quiet = Quiet-trans q s.quiet; settles = s.settles }

-- A choice between two attempts.
if_IsSound :
    {f : Flow} (b : Bool) (x y : Attempted)
    → IsSound f x
    → IsSound f y
    → IsSound f (if b then x else y)
if_IsSound true x y s t = s
if_IsSound false x y s t = t

storage_stops : {P : Type 0} (code : String) → goes_on (storage_error code).kind ≡ true → P
unfolding storage_error
storage_stops code h = absurd (ground arith)

module _ (p : Pool) (u : Upstream) (config : Config) (run : Run) (c : Candidate) where
  fail_attempt-Quiet : (e : Failure) (f : Flow) → Quiet f (fail_attempt p u config run c e f)
  unfolding fail_attempt alternates
  fail_attempt-Quiet e f = Quiet-after _ refl refl refl (Quiet-called f)

  fail_attempt-settled :
      (e : Failure) (f : Flow) → settled (fail_attempt p u config run c e f).effects ≡ true
  unfolding fail_attempt
  fail_attempt-settled e f = refl

  mark_uncertain-Quiet : (f : Flow) → Quiet f (mark_uncertain p u config run c f).flow
  unfolding mark_uncertain alternates
  mark_uncertain-Quiet f =
      Quiet-after _ refl refl refl (Quiet-trans (Quiet-called f) (Quiet-called (called f)))

  mark_uncertain-IsSound : (f : Flow) → IsSound f (mark_uncertain p u config run c f)
  unfolding mark_uncertain
  mark_uncertain-IsSound f = record {
    quiet = mark_uncertain-Quiet f;
    settles = stopped (u.uncertain_saved (suc (suc f.tick)));
  }
    where
      stopped :
          (s : Saved)
          → goes_on
              (uncertain_saving p u config run c s
                (uncertain_error p u config run c (p.now f.tick))).kind
            ≡ true
          → settled f.effects ≡ true
      stopped saved h = ground arith
      stopped fenced h = ground arith
      stopped not_saved h = storage_stops "uncertain_state_failed" h

  refused_by-IsSound : (status : ℕ) (f : Flow) → IsSound f (refused_by p u config run c status f)
  unfolding refused_by
  refused_by-IsSound status f =
      if_IsSound (leb 500 status && not (u.classify f.tick status).replay_safe) _ _
        (mark_uncertain-IsSound f)
        (record {
          quiet = fail_attempt-Quiet (u.classify f.tick status) f;
          settles = λ h. fail_attempt-settled _ f;
        })

  not_stored :
      {f g : Flow} (code : String)
      → Quiet f g
      → IsSound f (fails p u config run c g (storage_error code))
  not_stored code q = record { quiet = q; settles = λ h. storage_stops code h }

  reconcile_lease-Quiet :
      (estimate : ℤ) (usage : Usage) {f g : Flow}
      → Quiet f g
      → Quiet f (reconcile_lease estimate usage g)
  unfolding reconcile_lease
  reconcile_lease-Quiet estimate usage {f} {g} q = go (refund estimate usage)
    where
      go :
          (m : Option ℤ)
          → Quiet f (elim m [ none ↦ g | some actual ↦ after (lease_reconciled actual) g ])
      go none = q
      go (some actual) = Quiet-after _ refl refl refl q

  answer-IsSound :
      (stored : Bool) (usage : Usage) {f g : Flow}
      → Quiet f g
      → IsSound f (answer p u config run c stored usage g)
  answer-IsSound true usage q = record { quiet = q; settles = tt }
  answer-IsSound false usage q = not_stored _ q

  finish_attempt-IsSound :
      (stored : Bool) (usage : Usage) {f g : Flow}
      → Quiet f g
      → IsSound f (finish_attempt p u config run c stored usage g)
  unfolding finish_attempt
  finish_attempt-IsSound stored usage {f} {g} q =
      let q' = Quiet-after (attempt_completed usage) refl refl refl q in
      let q'' = Quiet-after (request_completed usage) refl refl refl q' in
      if_IsSound (not (u.completed g.tick)) _ _ (not_stored _ q') (
        if_IsSound (not (u.accounted (suc g.tick))) _ _ (not_stored _ q'')
          (answer-IsSound stored usage (reconcile_lease-Quiet run.estimated_tokens usage q'')))

  complete_attempt-IsSound :
      (r : ChatResponse) (f : Flow) → IsSound f (complete_attempt p u config run c r f)
  unfolding complete_attempt
  complete_attempt-IsSound r f = go u.sink
    where
      go :
          (m : Option (ℕ → Bool))
          → IsSound f (elim m [
            | none ↦ finish_attempt p u config run c true (response_usage run.request r) (called f)
            | some stores ↦
                finish_attempt p u config run c
                  (stores (suc f.tick))
                  (response_usage run.request r)
                  (after result_stored (called f))
          ])
      go none = finish_attempt-IsSound true _ (Quiet-called f)
      go (some stores) =
          finish_attempt-IsSound (stores (suc f.tick)) _
            (Quiet-after result_stored refl refl refl (Quiet-called f))

  receive-IsSound : (s : Sent) (f : Flow) → IsSound f (receive p u config run c s f)
  unfolding receive
  receive-IsSound no_response f = mark_uncertain-IsSound f
  receive-IsSound (response status body) f =
      if_IsSound (not (read_response config.max_response_bytes body)) _ _ (mark_uncertain-IsSound f)
        (if_IsSound (ltb status 200 || ltb 299 status) _ _ (refused_by-IsSound status f)
          (parses (u.parsed f.tick)))
    where
      parses :
          (m : Option ChatResponse)
          → IsSound f (elim m [
            | none ↦ mark_uncertain p u config run c f
            | some r ↦ complete_attempt p u config run c r f
          ])
      parses none = mark_uncertain-IsSound f
      parses (some r) = complete_attempt-IsSound r f

  -- Where the requests before are settled, another may be sent.
  send-IsSound :
      {f g : Flow} → settled g.effects ≡ true → Quiet f g → IsSound f (send p u config run c g)
  unfolding send
  send-IsSound {f} {g} h q =
      let q' = Quiet-after attempt_sending refl refl refl (Quiet-trans q (Quiet-called g)) in
      if_IsSound (u.sending (suc g.tick)) _ _
        (after-Quiet (Quiet-after request_sent refl refl (rw h refl) q')
          (receive-IsSound (u.sent (suc (suc g.tick))) _))
        (not_stored _ q')

  work-IsSound :
      (sequence : ℕ) (f : Flow)
      → settled f.effects ≡ true
      → IsSound f (work p u config run c sequence f)
  unfolding work
  work-IsSound sequence f h =
      let q : Quiet f (after (attempt_created c.id sequence) f) =
        Quiet-after (attempt_created c.id sequence) refl refl refl (Quiet-refl f) in
      if_IsSound (not (u.created f.tick)) _ _ (not_stored _ q)
        (go (build_upstream (u.build (suc f.tick))))
    where
      created : Flow
      created = after (attempt_created c.id sequence) f

      built : Quiet f (called created)
      built =
          Quiet-trans (Quiet-after (attempt_created c.id sequence) refl refl refl (Quiet-refl f))
            (Quiet-called created)

      go :
          (m : Option Failure)
          → IsSound f (elim m [
            | some e ↦ fails p u config run c (fail_attempt p u config run c e (called created)) e
            | none ↦ send p u config run c (called created)
          ])
      go (some e) = record {
        quiet = Quiet-trans built (fail_attempt-Quiet e (called created));
        settles = λ g. fail_attempt-settled e (called created);
      }
      go none = send-IsSound h built

  -- An attempt releases the lease that its candidate holds; where the requests before it are
  -- settled it is made carefully, and settles its own where another attempt may follow.
  pub non_stream_attempt_lem :
      (sequence : ℕ) (f : Flow)
      → settled f.effects ≡ true
      → (let a = non_stream_attempt p u config run c sequence f in
          (a.flow.excluded ≡ f.excluded)
          × (careful a.flow.effects ≡ careful f.effects)
          × (alternates lease_mark a.flow.effects false ≡ alternates lease_mark f.effects true)
          × ((open? : Bool)
              → alternates admission_mark a.flow.effects open?
                ≡ alternates admission_mark f.effects open?)
          × Settles a.outcome a.flow)
  unfolding non_stream_attempt alternates
  non_stream_attempt_lem sequence f h =
      let s = work-IsSound sequence f h in
      (
        s.quiet.kept,
        s.quiet.sends,
        s.quiet.leases true,
        s.quiet.admissions,
        released (work p u config run c sequence f) s.settles,
      )
    where
      released :
          (a : Attempted)
          → Settles a.outcome a.flow
          → Settles a.outcome (after lease_released a.flow)
      released a s = go a.outcome s
        where
          go : (o : Outcome Usage) → Settles o a.flow → Settles o (after lease_released a.flow)
          go (done usage) s = tt
          go (failed e) s = s
