-- ===== src/Admission/Gate.antt =====
-- internal/admission/gate.go: the gate that lets callers wait on the queue.
-- A waiter's channel is a number and holds one result; `sent` lists the results sent, in order.
-- A call of `Acquire` is two steps: `begin`, up to the select, and `give_up` where the context or
-- the timer ends first. `sync.Once` makes a permit's first `Release` the only one: `Permit.done`.
use llm2api.Prelude.{
  ℕ, ◌≡◌, Bool, true, false, Option, none, some, List, [], ◌∷◌, ◌++◌, Assoc, find, assign, erase,
  if◌then◌else◌,
}
use llm2api.Admission.Types.{
  Result, ok, err, ◌>>=◌, ConfigInput, Request, Ticket, Admission, Expiration, Dispatch,
}
use llm2api.Admission.Queue.{Queue, new_queue, enqueue, dispatch, cancel, release}
pub mod Delivery
pub mod Reachable

pub data GateResult : Type 0 where
  admitted : Admission → GateResult
  queue_timeout : GateResult

pub record Gate : Type 0 where
  pub queue : Queue
  pub waiters : Assoc ℕ
  pub sent : List (ℕ × GateResult)

pub record GatePermit : Type 0 where
  pub id : ℕ
  pub done : Bool

unfoldable pub new_gate : ConfigInput → Bool → Result Gate
new_gate input has_clock = do
  queue ← new_queue input has_clock
  ok (record { queue = queue; waiters = []; sent = [] })

unfoldable pub deliver : Gate → ℕ → GateResult → Gate × Bool
deliver g id result = elim (find id g.waiters) [
  | none ↦ (record g { waiters = erase id g.waiters }, false)
  | some waiter ↦
      (record g { waiters = erase id g.waiters; sent = g.sent ++ (waiter, result) ∷ [] }, true)
]

unfoldable pub deliver_expired : Gate → List Expiration → Gate
deliver_expired g [] = g
deliver_expired g (e ∷ es) = deliver_expired (deliver g e.ticket.id queue_timeout).0 es

-- An admitted ticket that no one waits for is released.
abbrev pub hand_over : Gate → Admission → Gate
hand_over g a =
    let (g', delivered) = deliver g a.ticket.id (admitted a) in
    if delivered then g' else record g' { queue = (release g'.queue a.ticket.id).0 }

unfoldable pub deliver_admitted : Gate → List Admission → Gate
deliver_admitted g [] = g
deliver_admitted g (a ∷ as') = deliver_admitted (hand_over g a) as'

unfoldable pub dispatch_locked : Gate → ℕ → Gate
dispatch_locked g now =
    let (queue, d) = dispatch g.queue now in
    deliver_admitted (deliver_expired (record g { queue = queue }) d.expired) d.admitted

-- The locked part of `Acquire`.
unfoldable pub begin : Gate → Request → ℕ → ℕ → Result (Gate × Ticket)
begin g request channel now = do
  (queue, ticket) ← enqueue g.queue request now
  ok (
    dispatch_locked (record g { queue = queue; waiters = assign ticket.id channel g.waiters }) now,
    ticket,
  )

unfoldable pub give_up : Gate → ℕ → ℕ → Gate
give_up g id now =
    dispatch_locked (record g { waiters = erase id g.waiters; queue = (cancel g.queue id now).0 })
      now

unfoldable pub release_ticket : Gate → ℕ → ℕ → Gate
release_ticket g id now = dispatch_locked (record g { queue = (release g.queue id).0 }) now

unfoldable pub release_permit : Gate → GatePermit → ℕ → Gate × GatePermit
release_permit g p now =
    if p.done then (g, p) else (release_ticket g p.id now, record p { done = true })
