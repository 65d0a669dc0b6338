-- ===== src/Resilience/Circuit/Behaviour.antt =====
-- internal/resilience/circuit.go: when a circuit trips, refuses, probes and recovers.
use llm2api.Prelude.{ℕ, ◌+◌, ◌<◌, ◌≤◌, true, false, none, some, List, [], ◌∷◌, ◌≡◌, arith, length}
use llm2api.Resilience.Circuit.{
  Circuit, half_open, opened, closed, Permit, PermitResult, succeeded, failed, acquire, complete,
  wake, admit, settle,
}

-- An acquisition followed by the completion of its permit, if it gives one.
unfoldable pub attempt : Circuit → ℕ → PermitResult → Circuit
attempt c now result = (complete (acquire c now).0 (acquire c now).1.permit result now).0

-- Attempts one after the other, at the given times, all with one result.
unfoldable pub attempts : Circuit → PermitResult → List ℕ → Circuit
attempts c result [] = c
attempts c result (now ∷ times) = attempts (attempt c now result) result times

attempt_failed_closed :
    (c : Circuit) (now : ℕ)
    → c.state ≡ closed
    → let c' = attempt c now failed in
      (c'.config ≡ c.config)
      × (c.consecutive_failures + 1 < c.config.failure_threshold
          → (c'.state ≡ closed) × (c'.consecutive_failures ≡ c.consecutive_failures + 1))
      × (c.config.failure_threshold ≤ c.consecutive_failures + 1
          → (c'.state ≡ opened) × (c'.retry_at ≡ now + c.config.open_duration))
unfolding attempt acquire wake admit complete settle
attempt_failed_closed c now h = ground arith

-- A closed circuit stays closed through fewer failures than its threshold leaves, one after the
-- other, counting each; the failure that reaches the threshold opens it, for the configured time.
pub failures_trip :
    (c : Circuit) (times : List ℕ) (last : ℕ)
    → c.state ≡ closed
    → c.consecutive_failures + length times + 1 ≡ c.config.failure_threshold
    → let c' = attempts c failed times in
      (c'.state ≡ closed)
      × (c'.consecutive_failures ≡ c.consecutive_failures + length times)
      × ((attempt c' last failed).state ≡ opened)
      × ((attempt c' last failed).retry_at ≡ last + c.config.open_duration)
unfolding attempts
failures_trip c [] last s h = ground (arith, attempt_failed_closed c last s)
failures_trip c (now ∷ times) last s h =
    let (same, stays, _) = attempt_failed_closed c now s in
    let (still, counted) = stays (omega arith) in
    ground (arith, failures_trip (attempt c now failed) times last still)

-- An open circuit refuses every acquisition before its retry time and stays as it is; from then on
-- the first one is a half-open probe, which is given while probes are allowed.
pub opened_acquire :
    (c : Circuit) (now : ℕ)
    → c.state ≡ opened
    → 0 < c.config.half_open_max_in_flight
    → let (c', r) = acquire c now in
      (now < c.retry_at
        → (c' ≡ c) × (r.allowed ≡ false) × (r.retry_at ≡ c.retry_at) × (r.permit ≡ none))
      × (c.retry_at ≤ now
          → (c'.state ≡ half_open)
            × (c'.half_open_in_flight ≡ 1)
            × (r.allowed ≡ true)
            × (r.permit
                ≡ some
                    (record { completed = false; generation = c'.generation; state = half_open })))
unfolding acquire wake admit
opened_acquire c now s h = ground arith

-- A completion answers true at most once for a permit: a second one, with any result at any time,
-- answers false and leaves the circuit and the permit alone.
pub complete_twice :
    (c d : Circuit) (p : Permit) (first second : PermitResult) (now later : ℕ)
    → (complete c (some p) first now).2 ≡ true
    → let q = (complete c (some p) first now).1 in complete d q second later ≡ (d, q, false)
unfolding complete
complete_twice c d p first second now later h = ground arith

attempt_probe :
    (c : Circuit) (now : ℕ)
    → c.state ≡ half_open
    → c.half_open_in_flight < c.config.half_open_max_in_flight
    → let c' = attempt c now succeeded in
      (c'.config ≡ c.config)
      × (c.half_open_successes + 1 < c.config.success_threshold
          → (c'.state ≡ half_open)
            × (c'.half_open_successes ≡ c.half_open_successes + 1)
            × (c'.half_open_in_flight ≡ c.half_open_in_flight))
      × (c.config.success_threshold ≤ c.half_open_successes + 1
          → (c'.state ≡ closed) × (c'.consecutive_failures ≡ 0))
unfolding attempt acquire wake admit complete settle
attempt_probe c now h k = ground arith

-- A half-open circuit with room for a probe closes, with no failure counted, when the successes in
-- a row reach the success threshold, and not before.
pub probes_recover :
    (c : Circuit) (times : List ℕ) (last : ℕ)
    → c.state ≡ half_open
    → c.half_open_in_flight < c.config.half_open_max_in_flight
    → c.half_open_successes + length times + 1 ≡ c.config.success_threshold
    → let c' = attempts c succeeded times in
      (c'.state ≡ half_open)
      × ((attempt c' last succeeded).state ≡ closed)
      × ((attempt c' last succeeded).consecutive_failures ≡ 0)
unfolding attempts
probes_recover c [] last s r h = ground (arith, attempt_probe c last s r)
probes_recover c (now ∷ times) last s r h =
    let (same, stays, _) = attempt_probe c now s r in
    let (still, counted, free) = stays (omega arith) in
    ground (arith, probes_recover (attempt c now succeeded) times last still)
