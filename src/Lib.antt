-- ===== src/Lib.antt =====
-- Verification of llm2api, a gateway that pools upstream API keys behind one OpenAI-compatible API.
--
-- A request passes the admission queue (internal/admission), is routed to a candidate credential
-- (internal/routing) under shared limits (internal/coordination), is attempted and retried
-- (internal/requestflow, with internal/resilience), and its streamed answer is decoded
-- (internal/canonical).
--
-- Prelude: shared names, Boolean tests on numbers, lists, signed integers, Go maps.
-- Resilience: internal/resilience. Backoff is backoff.go (`backoffDelay` is `backoff_delay`), Retry is
-- retry.go (`Decide` is `decide`), Circuit is circuit.go (`Acquire`, `Complete`, `complete` are
-- `acquire`, `complete`, `settle`).
-- Admission: internal/admission. Types is types.go, Queue is queue.go (`Enqueue`, `Dispatch`, `Cancel`,
-- `Release`, `takeNextLocked`, `expireLocked` are `enqueue`, `dispatch`, `cancel`, `release`,
-- `take_next`, `expire`).
-- Admission.Gate: gate.go. A caller's `Acquire` is the step `begin`, and `give_up` where it stops waiting;
-- `dispatch_locked` is `dispatchLocked`, and Gate.Reachable is about every sequence of these steps.
-- Routing: internal/routing. Eligibility is eligibility.go, Router is router.go (`Select` is `select`).
-- Coordination: internal/coordination. Leases is lease_script.go: a script is one step over the keys'
-- sorted sets, which SortedSets describes, and a key is dropped at the time set for it; a concrete
-- server is a parameter.
-- Requestflow: internal/requestflow. Request is the request of internal/canonical, Failures its errors.go
-- and the helpers on errors, Estimate estimate.go, Recovery recovery.go (`RecoverOnce`). Of service.go,
-- Capabilities is `validateCapabilities`, Candidates `selectCandidate`, `candidateDecision` and
-- `attemptDecision`, Prepare `prepare`; of chat.go, Attempt is `nonStreamAttempt` and Chat the loop of
-- `Chat`. The clock, the repository, the accounting, the coordinator and the provider answer by the
-- number of calls made before, and Effects lists the calls that change something outside. Capacity is
-- the coordinator's side of coordination_adapter.go (`CoordinationAdapter.Acquire`).
-- Protocol: internal/protocol. Present is the events that present.go writes.
-- Controlapi: internal/controlapi. Pagination is pagination.go.
-- Canonical: internal/canonical. Sse is sse.go (`Feed` and `Close` are `feed` and `close`).
--
-- Conventions. A call under a lock is one step; the clock's reading is an argument. A time is a number
-- of nanoseconds, 0 the zero time; a duration that the source tests for its sign is an integer until
-- it is validated. An ID is a number, 0 the empty string, where the source only compares IDs. A
-- constructor's integers are validated once and kept as numbers. Error messages are left out, error
-- kinds are kept. Random sources are arguments. Logging, tracing and JSON field names are left out.
--
-- Fuel. The admission loop of `Dispatch` runs on `max_active` rounds: each round fills an active
-- slot, so that the loop's own tests end it.
-- `consume` of the event stream runs on the length of the buffer: a line takes at least one byte off it.
-- The loop of `candidateDecision` runs on one more round than the run has candidates, and so does that of
-- `attemptDecision`: each round that goes on excludes a candidate. `Chat` runs on the attempts of the
-- retry policy, the candidates and two more: a round that goes on uses up an attempt of the policy or
-- excludes one more candidate.
--
-- Not modelled: persistence, HTTP, the providers' adapters, the web frontend; the streamed workflow and
-- the heartbeat of internal/requestflow; the rate limits of internal/coordination, whose token
-- buckets are floating-point.
pub mod Admission
pub mod Canonical
pub mod Controlapi
pub mod Coordination
pub mod Prelude
pub mod Protocol
pub mod Requestflow
pub mod Resilience
pub mod Routing
