-- ===== src/Resilience/Circuit/Machine.antt =====
-- internal/resilience/circuit.go: a circuit with the permits that it has given out, under any
-- sequence of acquisitions and completions.
use llm2api.Prelude.{
  ℕ, zero, suc, Bool, ◌&&◌, not, Option, none, some, List, [], ◌∷◌, get_elem?, ◌==◌, if◌then◌else◌,
}
use llm2api.Resilience.Circuit.{
  Circuit, half_open, Permit, PermitResult, acquire, complete, same_state,
}

pub record Machine : Type 0 where
  pub circuit : Circuit
  pub permits : List Permit

-- `completes i` is a completion of the i-th permit given out.
pub data Call : Type 0 where
  acquires : ℕ → Call
  completes : ℕ → PermitResult → ℕ → Call

abbrev pub issue : List Permit → Option Permit → List Permit
issue ps none = ps
issue ps (some p) = p ∷ ps

abbrev pub put : List Permit → ℕ → Option Permit → List Permit
put ps i none = ps
put [] i (some p) = []
put (q ∷ ps) zero (some p) = p ∷ ps
put (q ∷ ps) (suc i) (some p) = q ∷ put ps i (some p)

unfoldable pub step : Machine → Call → Machine
step m (acquires now) =
    let (c, r) = acquire m.circuit now in record { circuit = c; permits = issue m.permits r.permit }
step m (completes i result now) =
    let (c, p, done) = complete m.circuit (get_elem? m.permits i) result now in
    record { circuit = c; permits = put m.permits i p }

unfoldable pub run : Machine → List Call → Machine
run m [] = m
run m (call ∷ calls) = run (step m call) calls

-- A probe in flight: an uncompleted permit of the current generation, given out half-open.
abbrev pub is_live : Circuit → Permit → Bool
is_live c p = not p.completed && (p.generation == c.generation && same_state p.state half_open)

abbrev pub live : Circuit → List Permit → ℕ
live c [] = 0
live c (p ∷ ps) = if is_live c p then suc (live c ps) else live c ps
