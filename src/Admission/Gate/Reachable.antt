-- ===== src/Admission/Gate/Reachable.antt =====
-- internal/admission/gate.go: the gates that callers can bring about, and what a dispatch does there.
use mathlib.Core.Path.{subst}
use llm2api.Prelude.{
  sym, ap, ◌∙◌, ℕ, ◌≡◌, refl, true, [], find, find-erase, assign, find-assign, arith,
}
use llm2api.Admission.Types.{Result, ok, err, ◌>>=◌, ConfigInput, Request, Ticket}
use llm2api.Admission.Queue.{Queue, new_queue, enqueue, is_some}
use llm2api.Admission.Queue.Operations.{
  new_queue_lem, new_queue-Inv, enqueue_ok, enqueue-Inv, cancel-Inv, cancel-waiting_ticket,
  release-Inv, release-waiting_ticket,
}
use llm2api.Admission.Gate.{Gate, new_gate, dispatch_locked, begin, give_up, release_ticket}
use llm2api.Admission.Gate.Delivery.{GateInv, Dispatched, dispatch_locked-Dispatched}

-- What a caller's step makes of the gate.
pub data GateStep : Gate → Gate → Type 0 where
  begins :
      {g g' : Gate} {t : Ticket} (request : Request) (channel now : ℕ)
      → begin g request channel now ≡ ok (g', t)
      → GateStep g g'
  gives_up : {g : Gate} (id now : ℕ) → GateStep g (give_up g id now)
  releases : {g : Gate} (id now : ℕ) → GateStep g (release_ticket g id now)
  dispatches : {g : Gate} (now : ℕ) → GateStep g (dispatch_locked g now)

-- The gates that callers can bring about from a new one.
pub data Reachable (input : ConfigInput) : Gate → Type 0 where
  started : {g : Gate} → new_gate input true ≡ ok g → Reachable input g
  stepped : {g g' : Gate} → Reachable input g → GateStep g g' → Reachable input g'

begin-GateInv :
    (g g' : Gate) (t : Ticket) (request : Request) (channel now : ℕ)
    → GateInv g
    → begin g request channel now ≡ ok (g', t)
    → GateInv g'
unfolding begin
begin-GateInv g g' t request channel now v h = go (enqueue g.queue request now) refl h
  where
    filed : Queue → Ticket → Gate
    filed q u = record g { queue = q; waiters = assign u.id channel g.waiters }

    go :
        (m : Result (Queue × Ticket))
        → enqueue g.queue request now ≡ m
        → ◌>>=◌ {B = Gate × Ticket} m (λ (q, u). ok (dispatch_locked (filed q u) now, u))
          ≡ ok (g', t)
        → GateInv g'
    go (err k) e i = ground arith
    go (ok (q, u)) e i =
        let same : dispatch_locked (filed q u) now ≡ g' = ground arith in
        let (pushed, _, _, _, _) = enqueue_ok g.queue request now e in
        subst GateInv same
          (dispatch_locked-Dispatched (filed q u) now (record {
            queue = enqueue-Inv g.queue request now v.queue e;
            matched = λ id. ground (
              arith,
              ap Queue.waiting_ticket pushed,
              find-assign u.id id channel g.waiters,
              find-assign u.id id u.user_id g.queue.waiting_ticket,
              v.matched id,
            );
          })).inv

give_up-GateInv : (g : Gate) (id now : ℕ) → GateInv g → GateInv (give_up g id now)
unfolding give_up
give_up-GateInv g id now v =
    (dispatch_locked-Dispatched _ now (record {
      queue = cancel-Inv g.queue id now v.queue;
      matched = λ i. ground (
        arith,
        cancel-waiting_ticket g.queue id now i v.queue,
        find-erase id i g.waiters,
        v.matched i,
      );
    })).inv

release_ticket-GateInv : (g : Gate) (id now : ℕ) → GateInv g → GateInv (release_ticket g id now)
unfolding release_ticket
release_ticket-GateInv g id now v =
    (dispatch_locked-Dispatched _ now (record {
      queue = release-Inv g.queue id v.queue;
      matched =
          λ i. v.matched i ∙ ap (λ m. is_some (find i m)) (sym (release-waiting_ticket g.queue id));
    })).inv

-- Whatever the callers do, in any order, whenever the lock of a gate is free its queue is well
-- formed, and the IDs that have a waiter are exactly those of the tickets that wait.
pub Reachable-GateInv : (input : ConfigInput) (g : Gate) → Reachable input g → GateInv g
unfolding new_gate
Reachable-GateInv input g (started h) = go (new_queue input true) refl h
  where
    go :
        (m : Result Queue)
        → new_queue input true ≡ m
        → (m >>= λ q. ok (record { queue = q; waiters = []; sent = [] })) ≡ ok g
        → GateInv g
    go (err k) e i = ground arith
    go (ok q) e i =
        let same : record { queue = q; waiters = []; sent = [] } ≡ g = ground arith in
        subst GateInv same (record {
          queue = new_queue-Inv input true e;
          matched = λ id. rw (ap Queue.waiting_ticket (new_queue_lem input true e)) refl;
        })
Reachable-GateInv input g (stepped r (begins request channel now h)) =
    begin-GateInv _ g _ request channel now (Reachable-GateInv input _ r) h
Reachable-GateInv input g (stepped r (gives_up id now)) =
    give_up-GateInv _ id now (Reachable-GateInv input _ r)
Reachable-GateInv input g (stepped r (releases id now)) =
    release_ticket-GateInv _ id now (Reachable-GateInv input _ r)
Reachable-GateInv input g (stepped r (dispatches now)) =
    (dispatch_locked-Dispatched _ now (Reachable-GateInv input _ r)).inv

-- A dispatch of a gate that callers have brought about leaves the queue as its own dispatch does: no
-- admitted ticket is given back for want of a waiter. Each ticket that expires or is admitted had a
-- waiter; to these, in order, it sends the timeouts of the tickets that expire and then the
-- admissions, one result for each and nothing else.
pub dispatch_delivers :
    (input : ConfigInput) (g : Gate) (now : ℕ)
    → Reachable input g
    → Dispatched g now (dispatch_locked g now)
dispatch_delivers input g now r = dispatch_locked-Dispatched g now (Reachable-GateInv input g r)
