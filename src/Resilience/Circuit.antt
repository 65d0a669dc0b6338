-- ===== src/Resilience/Circuit.antt =====
-- internal/resilience/circuit.go: the circuit breaker and its permits.
-- The lock makes each call one step, which takes the clock's reading in nanoseconds (0 is the zero
-- time). `generation` is a uint64; a permit is a value that its holder completes at most once.
-- `Complete` marks the permit under the permit's lock and then settles it under the circuit's: the two
-- are one step at the time of the second, since only another completion of the permit reads the mark,
-- and it changes nothing.
use llm2api.Prelude.{
  ℕ, zero, suc, ◌+◌, ◌-◌, ◌%◌, ◌^◌, Bool, true, false, ◌&&◌, ◌||◌, not, Option, none, some, String,
  ℤ, pos, negsuc, List, [], ◌∷◌, ◌++◌, get_elem?, ltb, leb, ◌==◌, if◌then◌else◌,
}
use llm2api.Resilience.Errors.{Outcome, ok, err, invalid_configuration, ◌>>=◌}
pub mod Machine
pub mod Invariant
pub mod Behaviour

pub data CircuitState : Type 0 where
  closed opened half_open : CircuitState

-- The source's integers, which the constructor requires to be positive.
pub record CircuitInput : Type 0 where
  pub failure_threshold : ℤ
  pub success_threshold : ℤ
  pub open_duration : ℤ
  pub half_open_max_in_flight : ℤ

pub record CircuitConfig : Type 0 where
  pub failure_threshold : ℕ
  pub success_threshold : ℕ
  pub open_duration : ℕ
  pub half_open_max_in_flight : ℕ

-- `other` is a string that is none of the three results.
pub data PermitResult : Type 0 where
  succeeded failed released : PermitResult
  other : String → PermitResult

pub record Circuit : Type 0 where
  pub config : CircuitConfig
  pub state : CircuitState
  pub generation : ℕ
  pub consecutive_failures : ℕ
  pub half_open_successes : ℕ
  pub half_open_in_flight : ℕ
  pub retry_at : ℕ

pub record Permit : Type 0 where
  pub completed : Bool
  pub generation : ℕ
  pub state : CircuitState

pub record AcquireResult : Type 0 where
  pub allowed : Bool
  pub state : CircuitState
  pub retry_at : ℕ
  pub permit : Option Permit

abbrev pub same_state : CircuitState → CircuitState → Bool
same_state closed closed = true
same_state opened opened = true
same_state half_open half_open = true
same_state _ _ = false

positive : ℤ → Outcome ℕ
positive (negsuc n) = err invalid_configuration
positive (pos zero) = err invalid_configuration
positive (pos (suc n)) = ok (suc n)

-- `has_clock` is false for a nil clock.
unfoldable pub new_circuit : CircuitInput → Bool → Outcome Circuit
unfolding positive
new_circuit input has_clock = do
  failure ← positive input.failure_threshold
  success ← positive input.success_threshold
  duration ← positive input.open_duration
  in_flight ← positive input.half_open_max_in_flight
  if has_clock
      then ok (record {
        config = record {
          failure_threshold = failure;
          success_threshold = success;
          open_duration = duration;
          half_open_max_in_flight = in_flight;
        };
        state = closed;
        generation = 0;
        consecutive_failures = 0;
        half_open_successes = 0;
        half_open_in_flight = 0;
        retry_at = 0;
      })
      else err invalid_configuration

abbrev pub next_generation : ℕ → ℕ
next_generation g = (g + 1) % 2 ^ 64

to_open : Circuit → ℕ → Circuit
to_open c now = record c {
  state = opened;
  generation = next_generation c.generation;
  consecutive_failures = 0;
  half_open_successes = 0;
  half_open_in_flight = 0;
  retry_at = now + c.config.open_duration;
}

to_half_open : Circuit → Circuit
to_half_open c = record c {
  state = half_open;
  generation = next_generation c.generation;
  half_open_successes = 0;
  half_open_in_flight = 0;
  retry_at = 0;
}

to_closed : Circuit → Circuit
to_closed c = record c {
  state = closed;
  generation = next_generation c.generation;
  consecutive_failures = 0;
  half_open_successes = 0;
  half_open_in_flight = 0;
  retry_at = 0;
}

abbrev refused : CircuitState → ℕ → AcquireResult
refused s at = record { allowed = false; state = s; retry_at = at; permit = none }

abbrev granted : Circuit → AcquireResult
granted c = record {
  allowed = true;
  state = c.state;
  retry_at = 0;
  permit = some (record { completed = false; generation = c.generation; state = c.state });
}

-- The first step of `Acquire`: an open circuit whose time has come turns half-opened.
unfoldable pub wake : Circuit → ℕ → Circuit
unfolding to_half_open
wake c now = if same_state c.state opened && leb c.retry_at now then to_half_open c else c

unfoldable pub admit : Circuit → Circuit × AcquireResult
admit c =
    if same_state c.state opened
    then (c, refused opened c.retry_at)
    else if same_state c.state half_open
        && leb c.config.half_open_max_in_flight c.half_open_in_flight
    then (c, refused half_open 0)
    else (let c' =
          if same_state c.state half_open
          then record c { half_open_in_flight = c.half_open_in_flight + 1 }
          else c in
        (c', granted c'))

unfoldable pub acquire : Circuit → ℕ → Circuit × AcquireResult
acquire c now = admit (wake c now)

complete_closed : Circuit → PermitResult → ℕ → Circuit × Bool
unfolding to_open
complete_closed c succeeded now = (record c { consecutive_failures = 0 }, true)
complete_closed c failed now =
    let c' = record c { consecutive_failures = c.consecutive_failures + 1 } in
    (if leb c.config.failure_threshold c'.consecutive_failures then to_open c' now else c', true)
complete_closed c _ now = (c, true)

complete_half_open : Circuit → PermitResult → ℕ → Circuit × Bool
unfolding to_open to_closed
complete_half_open c succeeded now =
    let c' = record c { half_open_successes = c.half_open_successes + 1 } in
    (if leb c.config.success_threshold c'.half_open_successes then to_closed c' else c', true)
complete_half_open c failed now = (to_open c now, true)
complete_half_open c _ now = (c, true)

-- The switch of `complete` on the circuit's state.
complete_in : CircuitState → Circuit → PermitResult → ℕ → Circuit × Bool
unfolding complete_closed complete_half_open
complete_in closed c result now = complete_closed c result now
complete_in half_open c result now =
    complete_half_open
      (if ltb 0 c.half_open_in_flight
        then record c { half_open_in_flight = c.half_open_in_flight - 1 }
        else c)
      result now
complete_in opened c result now = (c, false)

-- The circuit's part of a completion; a permit of another generation or state changes nothing.
unfoldable pub settle : Circuit → ℕ → CircuitState → PermitResult → ℕ → Circuit × Bool
unfolding complete_in
settle c generation permit_state result now =
    if not (generation == c.generation) || not (same_state permit_state c.state)
    then (c, false)
    else complete_in c.state c result now

abbrev pub known : PermitResult → Bool
known (PermitResult.other s) = false
known _ = true

-- `Complete` on a permit: the circuit, the permit and the result. `none` is a nil permit.
unfoldable pub complete :
    Circuit → Option Permit → PermitResult → ℕ → Circuit × Option Permit × Bool
complete c none result now = (c, none, false)
complete c (some p) result now =
    if not (known result)
    then (c, some p, false)
    else if p.completed
    then (c, some p, false)
    else (let (c', done) = settle c p.generation p.state result now in
        (c', some (record p { completed = true }), done))
