-- ===== src/Resilience/Circuit/Invariant.antt =====
-- internal/resilience/circuit.go: the counters of a circuit, in every reachable state.
use llm2api.Prelude.{
  ℕ, zero, suc, ◌+◌, ◌^◌, ◌<◌, ◌≤◌, Bool, true, false, Option, none, some, List, [], ◌∷◌, ◌≡◌, refl,
  arith, length, get_elem?, if◌then◌else◌, All, ◌≢◌, sym, ◌⊎◌, inl, inr,
}
use llm2api.Resilience.Circuit.{
  Circuit, half_open, opened, closed, Permit, PermitResult, acquire, complete, wake, admit, settle,
  CircuitInput, new_circuit,
}
use llm2api.Resilience.Errors.{ok}
use llm2api.Resilience.Circuit.Machine.{
  Machine, Call, acquires, completes, step, run, live, is_live, issue, put,
}

-- A permit is of this generation or an earlier one; of this one, it has the circuit's state, which
-- is not open.
pub record IsIssued (c : Circuit) (p : Permit) : Type 0 where
  pub earlier : p.generation ≤ c.generation
  pub current : p.generation ≡ c.generation → (p.state ≡ c.state) × (c.state ≢ opened)

pub record Counts (c : Circuit) : Type 0 where
  pub failures : c.state ≡ closed → c.consecutive_failures < c.config.failure_threshold
  pub successes : c.half_open_successes < c.config.success_threshold
  pub probes : c.half_open_in_flight ≤ c.config.half_open_max_in_flight
  pub idle : c.state ≢ half_open → c.half_open_in_flight ≡ 0
  pub thresholds : (0 < c.config.failure_threshold) × (0 < c.config.success_threshold)

pub record Inv (m : Machine) : Type 0 where
  pub counts : Counts m.circuit
  pub issued : All (IsIssued m.circuit) m.permits
  pub in_flight : m.circuit.half_open_in_flight ≡ live m.circuit m.permits

-- A new generation: what was issued stays earlier, and nothing is live.
abbrev Renews : Circuit → Circuit → Type 0
Renews c c' = c'.generation ≡ c.generation + 1

renewed-IsIssued :
    (c c' : Circuit) (ps : List Permit) → Renews c c' → All (IsIssued c) ps → All (IsIssued c') ps
renewed-IsIssued c c' [] r h = tt
renewed-IsIssued c c' (p ∷ ps) r (h, hs) = (ground arith, renewed-IsIssued c c' ps r hs)

renewed_live :
    (c c' : Circuit) (ps : List Permit) → Renews c c' → All (IsIssued c) ps → live c' ps ≡ 0
renewed_live c c' [] r h = refl
renewed_live c c' (p ∷ ps) r (h, hs) = ground (arith, renewed_live c c' ps r hs)

-- The same generation and state.
abbrev Keeps : Circuit → Circuit → Type 0
Keeps c c' = (c'.generation ≡ c.generation) × (c'.state ≡ c.state)

kept-IsIssued :
    (c c' : Circuit) (ps : List Permit) → Keeps c c' → All (IsIssued c) ps → All (IsIssued c') ps
kept-IsIssued c c' [] r h = tt
kept-IsIssued c c' (p ∷ ps) r (h, hs) = (ground arith, kept-IsIssued c c' ps r hs)

kept_live : (c c' : Circuit) (ps : List Permit) → Keeps c c' → live c' ps ≡ live c ps
kept_live c c' [] r = refl
kept_live c c' (p ∷ ps) r = ground (arith, kept_live c c' ps r)

-- How a step changes the circuit under permits that stay: a new generation with nothing in
-- flight, or the same one.
abbrev Moves : Circuit → Circuit → ℕ → Type 0
Moves c c' lost =
    (Renews c c' × (c'.half_open_in_flight ≡ 0))
    ⊎ (Keeps c c' × (c'.half_open_in_flight + lost ≡ c.half_open_in_flight))

abbrev weight : Circuit → Permit → ℕ
weight c p = if is_live c p then 1 else 0

wake-Inv :
    (c : Circuit) (ps : List Permit) (now : ℕ)
    → c.generation + 1 < 2 ^ 64
    → Inv (record { circuit = c; permits = ps })
    → Inv (record { circuit = wake c now; permits = ps })
unfolding wake
wake-Inv c ps now g v =
    ground (arith, renewed-IsIssued c (wake c now) ps, renewed_live c (wake c now) ps)

admit-Inv :
    (c : Circuit) (ps : List Permit)
    → Inv (record { circuit = c; permits = ps })
    → Inv (record { circuit = (admit c).0; permits = issue ps (admit c).1.permit })
unfolding admit
admit-Inv c ps v =
    let probing = record c { half_open_in_flight = c.half_open_in_flight + 1 } in
    ground (arith, kept-IsIssued c probing ps, kept_live c probing ps)

acquire-Inv :
    (m : Machine) (now : ℕ)
    → m.circuit.generation + 1 < 2 ^ 64
    → Inv m
    → Inv (step m (acquires now))
unfolding step acquire
acquire-Inv m now g v =
    admit-Inv (wake m.circuit now) m.permits (wake-Inv m.circuit m.permits now g v)

put_same :
    (ps : List Permit) (i : ℕ) (p : Permit) → get_elem? ps i ≡ some p → put ps i (some p) ≡ ps
put_same [] i p h = refl
put_same (q ∷ ps) zero p h = ground arith
put_same (q ∷ ps) (suc i) p h = ground (arith, put_same ps i p)

module _ (c : Circuit) where
  at-IsIssued :
      (ps : List Permit) (i : ℕ) (p : Permit)
      → All (IsIssued c) ps
      → get_elem? ps i ≡ some p
      → IsIssued c p
  at-IsIssued [] i p h e = cc
  at-IsIssued (q ∷ ps) zero p (h, hs) e = ground arith
  at-IsIssued (q ∷ ps) (suc i) p (h, hs) e = at-IsIssued ps i p hs e

  at_live :
      (ps : List Permit) (i : ℕ) (p : Permit) → get_elem? ps i ≡ some p → weight c p ≤ live c ps
  at_live [] i p e = cc
  at_live (q ∷ ps) zero p e = ground arith
  at_live (q ∷ ps) (suc i) p e = ground (arith, at_live ps i p)

  put-IsIssued :
      (ps : List Permit) (i : ℕ) (p : Permit)
      → All (IsIssued c) ps
      → get_elem? ps i ≡ some p
      → All (IsIssued c) (put ps i (some (record p { completed = true })))
  put-IsIssued [] i p h e = cc
  put-IsIssued (q ∷ ps) zero p (h, hs) e = (ground arith, hs)
  put-IsIssued (q ∷ ps) (suc i) p (h, hs) e = (h, put-IsIssued ps i p hs e)

  live-put :
      (ps : List Permit) (i : ℕ) (p : Permit)
      → get_elem? ps i ≡ some p
      → live c (put ps i (some (record p { completed = true }))) + weight c p ≡ live c ps
  live-put [] i p e = cc
  live-put (q ∷ ps) zero p e = ground arith
  live-put (q ∷ ps) (suc i) p e = ground (arith, live-put ps i p)

  settle-Moves :
      (p : Permit) (result : PermitResult) (now : ℕ)
      → c.generation + 1 < 2 ^ 64
      → Counts c
      → IsIssued c p
      → p.completed ≡ false
      → weight c p ≤ c.half_open_in_flight
      → let c' = (settle c p.generation p.state result now).0 in Counts c' × Moves c c' (weight c p)
  unfolding settle
  settle-Moves p result now g v i u w = ground arith

-- A completion: the permit is spent, and the circuit has moved.
spend-Inv :
    (m : Machine) (i : ℕ) (p : Permit) (c' : Circuit)
    → get_elem? m.permits i ≡ some p
    → Inv m
    → Counts c'
    → Moves m.circuit c' (weight m.circuit p)
    → Inv
        (record { circuit = c'; permits = put m.permits i (some (record p { completed = true })) })
spend-Inv m i p c' e v k (inl (r, z)) =
    let issued = put-IsIssued m.circuit m.permits i p v.issued e in
    record {
      counts = k;
      issued = renewed-IsIssued m.circuit c' _ r issued;
      in_flight = rw z (sym (renewed_live m.circuit c' _ r issued));
    }
spend-Inv m i p c' e v k (inr (r, z)) = record {
  counts = k;
  issued = kept-IsIssued m.circuit c' _ r (put-IsIssued m.circuit m.permits i p v.issued e);
  in_flight = omega (
    arith,
    kept_live m.circuit c' (put m.permits i (some (record p { completed = true }))) r,
    live-put m.circuit m.permits i p e,
    v.in_flight,
  );
}

-- A completion is refused and changes nothing, or spends the permit and settles it.
pub complete_cases :
    (c : Circuit) (p : Permit) (result : PermitResult) (now : ℕ)
    → (complete c (some p) result now ≡ (c, some p, false))
      ⊎ ((p.completed ≡ false)
          × (let s = settle c p.generation p.state result now in
              complete c (some p) result now ≡ (s.0, some (record p { completed = true }), s.1)))
unfolding complete
complete_cases c p result now = ground arith

complete-Inv :
    (m : Machine) (i : ℕ) (result : PermitResult) (now : ℕ) (p : Permit)
    → get_elem? m.permits i ≡ some p
    → m.circuit.generation + 1 < 2 ^ 64
    → Inv m
    → let (c', q, done) = complete m.circuit (some p) result now in
      Inv (record { circuit = c'; permits = put m.permits i q })
complete-Inv m i result now p e g v = elim (complete_cases m.circuit p result now) [
  | inl same ↦ rw same (rw (put_same m.permits i p e) v)
  | inr (first, settled) ↦
      let (k, moves) =
        settle-Moves m.circuit p result now g v.counts
          (at-IsIssued m.circuit m.permits i p v.issued e) first
          (omega (arith, at_live m.circuit m.permits i p e, v.in_flight)) in
      rw settled (spend-Inv m i p _ e v k moves)
]

step-Inv :
    (m : Machine) (call : Call) → m.circuit.generation + 1 < 2 ^ 64 → Inv m → Inv (step m call)
unfolding step complete
step-Inv m (acquires now) g v = acquire-Inv m now g v
step-Inv m (completes i result now) g v = go (get_elem? m.permits i) refl
  where
    go : (q : Option Permit) → get_elem? m.permits i ≡ q → Inv (step m (completes i result now))
    go none e = rw e v
    go (some p) e = rw e (complete-Inv m i result now p e g v)

settle-generation :
    (c : Circuit) (p : Permit) (result : PermitResult) (now : ℕ)
    → (settle c p.generation p.state result now).0.generation ≤ c.generation + 1
unfolding settle
settle-generation c p result now = ground arith

acquire-generation : (c : Circuit) (now : ℕ) → (acquire c now).0.generation ≤ c.generation + 1
unfolding acquire wake admit
acquire-generation c now = ground arith

complete-generation :
    (c : Circuit) (q : Option Permit) (result : PermitResult) (now : ℕ)
    → (complete c q result now).0.generation ≤ c.generation + 1
unfolding complete
complete-generation c none result now = omega arith
complete-generation c (some p) result now = ground (arith, settle-generation c p result now)

step-generation :
    (m : Machine) (call : Call) → (step m call).circuit.generation ≤ m.circuit.generation + 1
unfolding step
step-generation m (acquires now) = acquire-generation m.circuit now
step-generation m (completes i result now) =
    complete-generation m.circuit (get_elem? m.permits i) result now

run-Inv :
    (m : Machine) (calls : List Call)
    → m.circuit.generation + length calls < 2 ^ 64
    → Inv m
    → Inv (run m calls)
unfolding run
run-Inv m [] g v = v
run-Inv m (call ∷ calls) g v =
    run-Inv (step m call) calls (omega (arith, step-generation m call))
      (step-Inv m call (omega arith) v)

new_circuit-Inv :
    (input : CircuitInput) (has_clock : Bool) {c : Circuit}
    → new_circuit input has_clock ≡ ok c
    → Inv (record { circuit = c; permits = [] }) × (c.generation ≡ 0)
unfolding new_circuit
new_circuit-Inv input has_clock h = ground arith

-- From a new circuit, after any sequence of fewer than 2 ^ 64 acquisitions and completions: the
-- failure count of a closed circuit is below its threshold and the success count below its own;
-- the probes counted in flight are exactly the uncompleted half-open permits of the current
-- generation, and at most the configured number.
pub run_counts :
    (input : CircuitInput) (has_clock : Bool) (calls : List Call) {c : Circuit}
    → new_circuit input has_clock ≡ ok c
    → length calls < 2 ^ 64
    → let m = run (record { circuit = c; permits = [] }) calls in
      (m.circuit.state ≡ closed
        → m.circuit.consecutive_failures < m.circuit.config.failure_threshold)
      × (m.circuit.half_open_successes < m.circuit.config.success_threshold)
      × (m.circuit.half_open_in_flight ≡ live m.circuit m.permits)
      × (live m.circuit m.permits ≤ m.circuit.config.half_open_max_in_flight)
run_counts input has_clock calls {c} made short =
    let (v, zeroed) = new_circuit-Inv input has_clock made in
    let w = run-Inv (record { circuit = c; permits = [] }) calls (omega arith) v in
    (
      w.counts.failures,
      w.counts.successes,
      w.in_flight,
      omega (arith, w.in_flight, w.counts.probes),
    )
