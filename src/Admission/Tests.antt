-- ===== src/Admission/Tests.antt =====
-- The theorems about the admission queue at concrete inputs: two users, one active slot.
use llm2api.Prelude.{
  inl, inr, arith, ℕ, ◌+◌, ◌≤◌, ◌<◌, ◌≡◌, refl, ◌⊎◌, true, none, some, ℤ, pos, List, [], ◌∷◌, ◌++◌,
  length, get_elem?, find, assign, erase,
}
use llm2api.Admission.Types.{ConfigInput, Config, Request, Ticket, ok, validate}
use llm2api.Admission.Queue.{
  Queue, queue_of, new_queue, enqueue, expire, take_next, take_at, dispatch, cancel, release, fill,
  expire_users, expire_tickets, admit,
}
use llm2api.Admission.Queue.Invariant.{Inv}
use llm2api.Admission.Queue.Expire.{all_elapsed}
use llm2api.Admission.Queue.Take.{take_next_lem}
use llm2api.Admission.Queue.Sweep.{IsExpired, expire-IsExpired}
use llm2api.Admission.Queue.Operations.{
  Operation, enqueues, dispatches, releases, step, run, run-Inv, cancel_forgets, dispatch_conserves,
}
use llm2api.Admission.Gate.{
  Gate, admitted, new_gate, begin, dispatch_locked, deliver, deliver_expired, deliver_admitted,
  give_up, release_ticket,
}
use llm2api.Admission.Gate.Delivery.{GateInv, Dispatched}
use llm2api.Admission.Gate.Reachable.{
  begins, gives_up, releases, Reachable, started, stepped, Reachable-GateInv, dispatch_delivers,
}
use llm2api.Admission.Queue.Deadline.{IsWaiting, IsLeast, next_deadline, next_deadline-IsLeast}

abbrev input : ConfigInput
input = record { max_queued = pos 3; max_active = pos 1; max_queue_wait = pos 100 }

abbrev config : Config
config = record { max_queued = 3; max_active = 1; max_queue_wait = 100 }

abbrev start : Queue
start = record {
  config = config;
  waiting = [];
  waiting_ticket = [];
  user_order = [];
  cursor = 0;
  waiting_count = 0;
  active = [];
  active_by_user = [];
}

made : new_queue input true ≡ ok start
unfolding new_queue validate
made = refl

abbrev request : ℕ → ℕ → ℤ → Request
request id user timeout = record { id = id; user_id = user; queue_timeout = timeout }

-- User 7 asks twice, user 8 once with a short timeout.
abbrev arrivals : List Operation
arrivals =
    enqueues (request 1 7 (pos 0)) 10
    ∷ enqueues (request 2 7 (pos 0)) 11
    ∷ enqueues (request 3 8 (pos 5)) 12
    ∷ []

three_wait : (run start arrivals).waiting_count ≡ 3
unfolding run step enqueue assign
three_wait = refl

-- Ticket 1 is admitted, and later user 8's turn comes first.
rotates :
    (run start (arrivals ++ dispatches 13 ∷ releases 1 ∷ dispatches 14 ∷ [])).active
    ≡ (3, record { id = 3; user_id = 8; enqueued_at = 12; deadline = 17 }) ∷ []
unfolding run step enqueue assign erase dispatch expire expire_users expire_tickets fill take_next
    take_at admit release
rotates = refl

run-Inv_example : Inv (run start arrivals)
run-Inv_example = run-Inv input true arrivals made

dispatch_conserves_example :
    let (r, d) = dispatch (run start arrivals) 17 in
    (length r.active ≤ r.config.max_active)
    × ((length r.active ≡ r.config.max_active) ⊎ (r.waiting_count ≡ 0))
    × (d.expired
        ≡ all_elapsed 17 (queue_of (run start arrivals).waiting) (run start arrivals).user_order)
    × (r.waiting_count + length d.expired + length d.admitted ≡ (run start arrivals).waiting_count)
    × (length r.active ≡ length (run start arrivals).active + length d.admitted)
dispatch_conserves_example =
    dispatch_conserves (run start arrivals) 17 (run-Inv input true arrivals made)

cancel_forgets_example :
    let r = (cancel (run start arrivals) 2 20).0 in
    (find 2 r.waiting_ticket ≡ none) × (find 2 r.active ≡ none) × (cancel r 2 21 ≡ (r, none))
cancel_forgets_example =
    cancel_forgets (run start arrivals) 2 20 21 (run-Inv input true arrivals made)

expire-IsExpired_example :
    IsExpired 17
      (run start arrivals)
      (expire (run start arrivals) 17).0
      (expire (run start arrivals) 17).1
expire-IsExpired_example =
    expire-IsExpired (run start arrivals) 17 (run-Inv input true arrivals made)

take_next_lem_example :
    ((run start arrivals).waiting_count ≡ 0) × (take_next (run start arrivals) ≡ none)
    ⊎ ((user : ℕ) × (t : Ticket) × (rest : List Ticket) × (0 < (run start arrivals).waiting_count)
        × (get_elem? (run start arrivals).user_order (run start arrivals).cursor ≡ some user)
        × (queue_of (run start arrivals).waiting user ≡ t ∷ rest)
        × (take_next (run start arrivals)
            ≡ some (take_at (run start arrivals) (run start arrivals).cursor user t rest, t)))
take_next_lem_example = take_next_lem (run start arrivals) (run-Inv input true arrivals made)

abbrev gate : Gate
gate = record { queue = start; waiters = []; sent = [] }

gate_made : new_gate input true ≡ ok gate
unfolding new_gate new_queue validate
gate_made = refl

-- User 7 enters at once, and user 8 waits on channel 6.
abbrev entering : Ticket
entering = record { id = 1; user_id = 7; enqueued_at = 10; deadline = 110 }

abbrev waits : Ticket
waits = record { id = 2; user_id = 8; enqueued_at = 12; deadline = 112 }

abbrev entered_queue : Queue
entered_queue = record start { active = (1, entering) ∷ []; active_by_user = (7, pos 1) ∷ [] }

abbrev entered_gate : Gate
entered_gate = record {
  queue = entered_queue;
  waiters = [];
  sent = (5, admitted (record { ticket = entering; admitted_at = 10 })) ∷ [];
}

abbrev waiting_gate : Gate
waiting_gate = record entered_gate {
  queue = record entered_queue {
    waiting = (8, waits ∷ []) ∷ [];
    waiting_ticket = (2, 8) ∷ [];
    user_order = 8 ∷ [];
    waiting_count = 1;
  };
  waiters = (2, 6) ∷ [];
}

enters : begin gate (request 1 7 (pos 0)) 5 10 ≡ ok (entered_gate, entering)
unfolding begin enqueue dispatch_locked dispatch expire expire_users expire_tickets fill take_next
    take_at admit assign erase deliver deliver_expired deliver_admitted
enters = refl

has_to_wait : begin entered_gate (request 2 8 (pos 0)) 6 12 ≡ ok (waiting_gate, waits)
unfolding begin enqueue dispatch_locked dispatch expire expire_users expire_tickets fill take_next
    take_at admit assign erase deliver deliver_expired deliver_admitted
has_to_wait = refl

waiting_gate-Reachable : Reachable input waiting_gate
waiting_gate-Reachable =
    stepped (stepped (started gate_made) (begins (request 1 7 (pos 0)) 5 10 enters))
      (begins (request 2 8 (pos 0)) 6 12 has_to_wait)

Reachable-GateInv_example : GateInv (give_up (release_ticket waiting_gate 1 20) 2 21)
Reachable-GateInv_example =
    Reachable-GateInv input (give_up (release_ticket waiting_gate 1 20) 2 21)
      (stepped (stepped waiting_gate-Reachable (releases 1 20)) (gives_up 2 21))

-- The waiting ticket expires.
dispatch_delivers_example : Dispatched waiting_gate 112 (dispatch_locked waiting_gate 112)
dispatch_delivers_example = dispatch_delivers input waiting_gate 112 waiting_gate-Reachable

abbrev first : Ticket
first = record { id = 1; user_id = 7; enqueued_at = 10; deadline = 40 }

abbrev second : Ticket
second = record { id = 2; user_id = 8; enqueued_at = 11; deadline = 30 }

abbrev waiting : Queue
waiting = record start { waiting = (7, first ∷ []) ∷ (8, second ∷ []) ∷ [] }

first_waits : IsWaiting waiting.waiting first
first_waits = inl (inl refl)

next_deadline-IsLeast_example : IsLeast waiting (next_deadline waiting)
next_deadline-IsLeast_example =
    next_deadline-IsLeast waiting first
      (λ t w. elim w [
        | inl (inl e) ↦ rw e (omega arith)
        | inl (inr x) ↦ absurd x
        | inr (inl (inl e)) ↦ rw e (omega arith)
        | inr (inl (inr x)) ↦ absurd x
        | inr (inr x) ↦ absurd x
      ])
      first_waits
