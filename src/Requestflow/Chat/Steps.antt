-- ===== src/Requestflow/Chat/Steps.antt =====
-- internal/requestflow/chat.go: what one round of the loop leaves for the next.
use mathlib.Core.Path.{subst}
use llm2api.Prelude.{
  ℕ, suc, ◌+◌, ◌≤◌, ◌<◌, ◌≡◌, ◌≢◌, refl, sym, ap, ◌∙◌, ◌⊎◌, inl, inr, Bool, true, false, ◌&&◌, not,
  none, some, List, [], ◌∷◌, length, length-append, ltb, if◌then◌else◌, Bool-cases, arith,
}
use llm2api.Resilience.Errors
use llm2api.Resilience.Retry.{RetryPolicy, RetryDecision, schedule, decide, retryable_failure?}
use llm2api.Resilience.Retry.Schedule.{decide-IsScheduled}
use llm2api.Requestflow.Request.{Usage}
use llm2api.Requestflow.Failures.{
  ErrorKind, Failure, is_uncertain, should_try_next_candidate, worth_another, failure_class,
}
use llm2api.Requestflow.Effects.{
  Effect, request_failed, settled, careful, lease_mark, admission_mark, alternates,
}
use llm2api.Requestflow.Candidates.{
  Candidate, Run, Flow, Pool, Outcome, done, failed, routing_id, enough,
}
use llm2api.Requestflow.Candidates.Decisions.{leasing, attempt_decision_total, length-Decides}
use llm2api.Requestflow.Candidates.Selected.{remaining-length}
use llm2api.Requestflow.Attempt.{Config, Upstream}
use llm2api.Requestflow.Attempt.Sound.{goes_on, Settles, non_stream_attempt_lem}
use llm2api.Requestflow.Chat.{
  Next, returns, gives_up, next_candidate, waits_until, scheduled, retry_input, next_of, is_later,
  Round, stops, repeats, react, conclude, round_from, round,
}

scheduled-ok :
    (m : Errors.Outcome RetryDecision) (at : ℕ)
    → scheduled m ≡ waits_until at
    → (n d : ℕ) × (m ≡ Errors.ok (schedule n d at))
scheduled-ok (Errors.ok (schedule n d t)) at h = (n, d, ground (arith, h))
scheduled-ok (Errors.ok (RetryDecision.stop r)) at h = ground (arith, h)
scheduled-ok (Errors.ok (RetryDecision.uncertain r)) at h = ground (arith, h)
scheduled-ok (Errors.err e) at h = ground (arith, h)
scheduled-ok Errors.panic at h = ground (arith, h)

scheduled-next : (m : Errors.Outcome RetryDecision) → scheduled m ≢ next_candidate
scheduled-next (Errors.ok (schedule n d t)) h = ground (arith, h)
scheduled-next (Errors.ok (RetryDecision.stop r)) h = ground (arith, h)
scheduled-next (Errors.ok (RetryDecision.uncertain r)) h = ground (arith, h)
scheduled-next (Errors.err e) h = ground (arith, h)
scheduled-next Errors.panic h = ground (arith, h)

worth_another-goes_on : (k : ErrorKind) → worth_another k ≡ true → goes_on k ≡ true
worth_another-goes_on k h = ground (arith, h)

retryable-goes_on :
    (k : ErrorKind)
    → is_uncertain k ≡ false
    → retryable_failure? (failure_class k) ≡ true
    → goes_on k ≡ true
unfolding failure_class
retryable-goes_on k h r = ground (arith, h, r)

module _ (retry : RetryPolicy) (run : Run) (started sequence : ℕ) (e : Failure) (excluded : List ℕ)
    (now : ℕ) where
  abbrev next : Next
  next = next_of retry run started sequence e excluded now

  next_candidate-lem :
      next ≡ next_candidate
      → (goes_on e.kind ≡ true) × (length excluded + 1 < length run.candidates)
  unfolding next_of should_try_next_candidate
  next_candidate-lem h = elim (Bool-cases (is_uncertain e.kind)) [
    | inl p ↦ ground (arith, p, h)
    | inr p ↦
        elim (Bool-cases
          (should_try_next_candidate e && ltb (length excluded + 1) (length run.candidates))) [
            | inl q ↦ (worth_another-goes_on e.kind (ground (arith, q)), ground (arith, q))
            | inr q ↦ absurd (
                scheduled-next (decide retry (retry_input started sequence e) now)
                  (ground (arith, p, q, h)))
          ]
  ]

  waits_until-lem :
      (at : ℕ)
      → next ≡ waits_until at
      → (goes_on e.kind ≡ true) × (suc sequence ≤ retry.max_attempts)
  unfolding next_of
  waits_until-lem at h = elim (Bool-cases (is_uncertain e.kind)) [
    | inl p ↦ ground (arith, p, h)
    | inr p ↦
        elim (Bool-cases
          (should_try_next_candidate e && ltb (length excluded + 1) (length run.candidates))) [
            | inl q ↦ ground (arith, p, q, h)
            | inr q ↦
                let (n, d, m) =
                  scheduled-ok (decide retry (retry_input started sequence e) now) at
                    (ground (arith, p, q, h)) in
                let s = decide-IsScheduled retry (retry_input started sequence e) now m in
                let (a, same, after, _) = s.next in
                (retryable-goes_on e.kind p s.retryable, ground (arith, same, after, s.in_budget))
          ]
  ]

-- Between two rounds: all requests are settled and were sent carefully, and no lease is held.
pub record IsIdle (es : List Effect) : Type 0 where
  pub settles : settled es ≡ true
  pub sends : careful es ≡ true
  pub leases : alternates lease_mark es false ≡ true

-- The admission is as it was.
abbrev pub Admits : List Effect → List Effect → Type 0
Admits before es =
    (open? : Bool) → alternates admission_mark es open? ≡ alternates admission_mark before open?

pub record Stopped (before : List Effect) (es : List Effect) : Type 0 where
  pub sends : careful es ≡ true
  pub leases : alternates lease_mark es false ≡ true
  pub admits : Admits before es

-- A round that repeats has used up an attempt of the policy or a candidate.
abbrev pub Advances : RetryPolicy → Run → ℕ → Flow → Flow → Type 0
Advances retry run sequence f g =
    (suc sequence ≤ retry.max_attempts)
    ⊎ ((length f.excluded < length g.excluded) × (length g.excluded < length run.candidates))

pub record Repeated (retry : RetryPolicy) (run : Run) (sequence : ℕ) (f g : Flow) : Type 0 where
  pub idle : IsIdle g.effects
  pub admits : Admits f.effects g.effects
  pub advances : Advances retry run sequence f g

abbrev pub After : RetryPolicy → Run → ℕ → Flow → Round → Type 0
After retry run sequence f (stops a) = Stopped f.effects a.flow.effects
After retry run sequence f (repeats g) = Repeated retry run sequence f g

After-if :
    (retry : RetryPolicy) (run : Run) (sequence : ℕ) (f : Flow) (b : Bool) (x y : Round)
    → After retry run sequence f x
    → After retry run sequence f y
    → After retry run sequence f (if b then x else y)
After-if retry run sequence f true x y s t = s
After-if retry run sequence f false x y s t = t

module _ (p : Pool) (u : Upstream) (config : Config) (retry : RetryPolicy) (run : Run)
    (started sequence : ℕ) (f : Flow) where
  react-After :
      (c : Candidate) (e : Failure) (g : Flow) (n : Next)
      → next_of retry run started sequence e g.excluded (p.now g.tick) ≡ n
      → length f.excluded ≤ length g.excluded
      → (goes_on e.kind ≡ true → settled g.effects ≡ true)
      → Stopped f.effects g.effects
      → After retry run sequence f (react p u config retry run c e g n)
  unfolding react alternates
  react-After c e g returns h l s t = t
  react-After c e g gives_up h l s t = record {
    sends = t.sends;
    leases = t.leases;
    admits = t.admits;
  }
  react-After c e g next_candidate h l s t =
      let (on, room) = next_candidate-lem retry run started sequence e g.excluded _ h in
      record {
        idle = record { settles = s on; sends = t.sends; leases = t.leases };
        admits = t.admits;
        advances = inr (
          omega (arith, l, length-append g.excluded (routing_id c ∷ [])),
          omega (arith, room, length-append g.excluded (routing_id c ∷ [])),
        );
      }
  react-After c e g (waits_until at) h l s t =
      let (on, budget) = waits_until-lem retry run started sequence e g.excluded _ at h in
      let again : IsIdle g.effects = record {
        settles = s on;
        sends = t.sends;
        leases = t.leases;
      } in
      After-if retry run sequence f (not (is_later at (p.now (suc g.tick)))) _ _
        (record { idle = again; admits = t.admits; advances = inl budget })
        (After-if retry run sequence f (u.canceled (suc (suc g.tick))) _ _
          (record { sends = t.sends; leases = t.leases; admits = t.admits })
          (record {
            idle = record { settles = s on; sends = t.sends; leases = t.leases };
            admits = t.admits;
            advances = inl budget;
          }))

  conclude-After :
      (c : Candidate) (g : Flow) (o : Outcome Usage)
      → length f.excluded ≤ length g.excluded
      → Settles o g
      → Stopped f.effects g.effects
      → After retry run sequence f (conclude p u config retry run started sequence c g o)
  unfolding conclude
  conclude-After c g (done usage) l s t = t
  conclude-After c g (failed e) l s t = react-After c e g _ refl l s t

  round_from-After :
      IsIdle f.effects
      → (g : Flow) (o : Outcome Candidate) → length f.excluded ≤ length g.excluded
      → g.effects ≡ leasing o f.effects
      → After retry run sequence f (round_from p u config retry run started sequence g o)
  unfolding round_from alternates
  round_from-After i g (failed e) l h =
      subst (Stopped f.effects) (ap (λ es. request_failed e.code ∷ es) (sym h))
        (record { sends = i.sends; leases = i.leases; admits = λ o. refl })
  round_from-After i g (done c) l h =
      let (kept, sends, leases, admits, settles) =
        non_stream_attempt_lem p u config run c sequence g (ap settled h ∙ i.settles) in
      conclude-After c _ _ (rw kept l) settles (record {
        sends = sends ∙ ap careful h ∙ i.sends;
        leases = leases ∙ ap (λ es. alternates lease_mark es true) h ∙ i.leases;
        admits = λ o. admits o ∙ ap (λ es. alternates admission_mark es o) h;
      })

  -- A round has an outcome, and it leaves the state as it should be.
  pub round_total :
      IsIdle f.effects
      → (r : Round) × (round p u config retry run started sequence f ≡ some r)
        × After retry run sequence f r
  unfolding round
  round_total i =
      let (d, found, s, effects) =
        attempt_decision_total p run (enough run) none false f
          (omega (arith, remaining-length f.excluded run.candidates)) in
      (
        round_from p u config retry run started sequence d.flow d.outcome,
        rw (round, found) refl,
        round_from-After i d.flow d.outcome (length-Decides run f d s) effects,
      )
