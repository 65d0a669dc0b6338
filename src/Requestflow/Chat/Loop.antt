-- ===== src/Requestflow/Chat/Loop.antt =====
-- internal/requestflow/chat.go: the loop of `Chat` over its rounds, and what it leaves behind.
use llm2api.Prelude.{
  ℕ, zero, suc, ◌+◌, ◌≤◌, ◌<◌, ◌≡◌, refl, ◌∙◌, Bool, true, false, Option, some, List, [], length,
  arith, if◌then◌else◌,
}
use llm2api.Resilience.Retry.{RetryPolicy}
use llm2api.Requestflow.Effects.{Effect, careful, lease_mark, admission_mark, alternates}
use llm2api.Requestflow.Candidates.{Run, Flow, called, Pool}
use llm2api.Requestflow.Attempt.{Config, Upstream}
use llm2api.Requestflow.Chat.{
  Answered, Round, stops, repeats, round, chat_loop, chat_fuel, run_attempts, close, chat,
}
use llm2api.Requestflow.Chat.Steps.{IsIdle, Stopped, Advances, After, round_total}

abbrev Ends : List Effect → Option Answered → Type 0
Ends es m = (a : Answered) × (m ≡ some a) × Stopped es a.flow.effects

if_Ends :
    (es : List Effect) (b : Bool) (x y : Option Answered)
    → Ends es x
    → Ends es y
    → Ends es (if b then x else y)
if_Ends es true x y s t = s
if_Ends es false x y s t = t

-- Fuel that is enough for the rounds from one on.
abbrev Suffices : RetryPolicy → Run → ℕ → ℕ → Flow → Type 0
Suffices retry run fuel sequence f =
    (sequence < retry.max_attempts
      → retry.max_attempts + length run.candidates + 2 ≤ fuel + sequence)
    × (retry.max_attempts ≤ sequence → length run.candidates < fuel + length f.excluded)
    × (0 < fuel)

Suffices-suc :
    (retry : RetryPolicy) (run : Run) (fuel sequence : ℕ) (f g : Flow)
    → Suffices retry run (suc fuel) sequence f
    → Advances retry run sequence f g
    → Suffices retry run fuel (suc sequence) g
Suffices-suc retry run fuel sequence f g s a = (ground arith, ground arith, ground arith)

module _ (p : Pool) (u : Upstream) (config : Config) (retry : RetryPolicy) (run : Run) where
  abbrev Goes : ℕ → ℕ → ℕ → Flow → Type 0
  Goes fuel started sequence f =
      (a : Answered) × (chat_loop p u config retry run fuel started sequence f ≡ some a)
      × Stopped f.effects a.flow.effects

  goes_on :
      (fuel started sequence : ℕ) (f : Flow)
      → ((g : Flow)
          → IsIdle g.effects
          → Advances retry run sequence f g
          → Goes fuel started (suc sequence) g)
      → (r : Round) → round p u config retry run started sequence f ≡ some r
      → After retry run sequence f r
      → Goes (suc fuel) started sequence f
  unfolding chat_loop
  goes_on fuel started sequence f rest (stops a) found left = (a, rw (chat_loop, found) refl, left)
  goes_on fuel started sequence f rest (repeats g) found left =
      let (a, ends, stopped) = rest g left.idle left.advances in
      (
        a,
        rw (chat_loop, found) ends,
        record {
          sends = stopped.sends;
          leases = stopped.leases;
          admits = λ o. stopped.admits o ∙ left.admits o;
        },
      )

  chat_loop_total :
      (fuel started sequence : ℕ) (f : Flow)
      → IsIdle f.effects
      → Suffices retry run fuel sequence f
      → Goes fuel started sequence f
  chat_loop_total zero started sequence f i s = absurd (omega (arith, s.2))
  chat_loop_total (suc fuel) started sequence f i s =
      let (r, found, left) = round_total p u config retry run started sequence f i in
      goes_on fuel started sequence f
        (λ g h e.
          chat_loop_total fuel started (suc sequence) g h
            (Suffices-suc retry run fuel sequence f g s e))
        r found left

  run_attempts_total :
      (f : Flow) → IsIdle f.effects → Ends f.effects (run_attempts p u config retry run f)
  unfolding run_attempts alternates
  run_attempts_total f i =
      if_Ends f.effects run.request.stream _ _
        (_, refl, record { sends = i.sends; leases = i.leases; admits = λ o. refl })
        (chat_loop_total (chat_fuel p u config retry run) (p.now f.tick) 1
          (called (record f { excluded = [] }))
          (record { settles = i.settles; sends = i.sends; leases = i.leases })
          (ground arith, ground arith, ground arith))

  -- What `Chat` leaves behind.
  pub record IsClosed (f : Flow) (a : Answered) : Type 0 where
    pub sends : careful a.flow.effects ≡ true
    pub leases : alternates lease_mark a.flow.effects false ≡ true
    pub admissions :
        alternates admission_mark a.flow.effects false ≡ alternates admission_mark f.effects true

  pub chat_closes :
      (f : Flow)
      → IsIdle f.effects
      → (a : Answered) × (chat p u config retry run f ≡ some a) × IsClosed f a
  unfolding chat alternates
  chat_closes f i =
      let (a, ends, left) = run_attempts_total f i in
      (
        close p u config retry run a,
        rw (chat, ends) refl,
        record { sends = left.sends; leases = left.leases; admissions = left.admits true },
      )
