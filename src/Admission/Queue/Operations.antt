-- ===== src/Admission/Queue/Operations.antt =====
-- internal/admission/queue.go: what each public operation does to a well-formed queue, and every
-- history of operations.
use mathlib.Core.Path.{subst}
use llm2api.Prelude.{
  ℕ, ◌+◌, ◌≤◌, ◌<◌, ◌≡◌, refl, sym, ap, ◌∙◌, ◌⊎◌, inl, inr, Bool, true, false, none, some, List, [],
  ◌∷◌, ◌++◌, length, arith, find, erase, find-erase, length-erase, Option-cases, Bool-cases, ◌==◌,
  ==→≡, if◌then◌else◌,
}
use llm2api.Admission.Types.{Ticket, Config, ConfigInput, Request, Result, ok, err}
use llm2api.Admission.Queue.{
  Queue, queue_of, push_ticket, new_queue, enqueue, expire, dispatch, decrement_active, cancel,
  release,
}
use llm2api.Admission.Queue.Invariant.{Inv}
use llm2api.Admission.Queue.Expire.{all_elapsed}
use llm2api.Admission.Queue.Fill.{IsFilled, fill-IsFilled}
use llm2api.Admission.Queue.Sweep.{IsExpired, expire-IsExpired}
use llm2api.Admission.Queue.Enqueue.{push_ticket-Inv}
use llm2api.Admission.Queue.Remove.{IsRemoved, remove_waiting_lem}

abbrev empty_queue : Config → Queue
empty_queue c = record {
  config = c;
  waiting = [];
  waiting_ticket = [];
  user_order = [];
  cursor = 0;
  waiting_count = 0;
  active = [];
  active_by_user = [];
}

empty_queue-Inv : (c : Config) → Inv (empty_queue c)
empty_queue-Inv c = record {
  core = record {
    distinct = tt;
    covers = λ u h. refl;
    counted = refl;
    held = λ u. tt;
    filed = λ id u e. cc;
  };
  busy = λ u e. cc;
  cursor_in = inl refl;
  capacity = omega arith;
  apart = λ id e. refl;
  within = omega arith;
}

pub new_queue_lem :
    (input : ConfigInput) (has_clock : Bool) {q : Queue}
    → new_queue input has_clock ≡ ok q
    → q ≡ empty_queue q.config
unfolding new_queue
new_queue_lem input has_clock h = ground arith

pub new_queue-Inv :
    (input : ConfigInput) (has_clock : Bool) {q : Queue} → new_queue input has_clock ≡ ok q → Inv q
new_queue-Inv input has_clock {q} h =
    subst Inv (sym (new_queue_lem input has_clock h)) (empty_queue-Inv q.config)

-- What an accepted request shows.
pub enqueue_ok :
    (q : Queue) (r : Request) (now : ℕ) {q' : Queue} {t : Ticket}
    → enqueue q r now ≡ ok (q', t)
    → (q' ≡ push_ticket q t)
      × ((t.id ≡ r.id) × (t.user_id ≡ r.user_id) × (t.enqueued_at ≡ now))
      × (t.deadline ≤ now + q.config.max_queue_wait)
      × ((find r.id q.waiting_ticket ≡ none) × (find r.id q.active ≡ none))
      × (q.waiting_count < q.config.max_queued)
unfolding enqueue
enqueue_ok q r now h = ground arith

pub enqueue-Inv :
    (q : Queue) (r : Request) (now : ℕ) {q' : Queue} {t : Ticket}
    → Inv q
    → enqueue q r now ≡ ok (q', t)
    → Inv q'
enqueue-Inv q r now {q'} {t} v h =
    let (same, (id, _, _), _, (fresh, idle), room) = enqueue_ok q r now h in
    rw same (push_ticket-Inv q t v (rw id fresh) (rw id idle) room)

decrement_active-Inv : (q : Queue) (u : ℕ) → Inv q → Inv (decrement_active q u)
unfolding decrement_active
decrement_active-Inv q u v = record {
  core = v.core;
  busy = v.busy;
  cursor_in = v.cursor_in;
  capacity = v.capacity;
  apart = v.apart;
  within = v.within;
}

-- An active ticket let go.
abbrev freed : Queue → ℕ → Queue
freed q id = record q { active = erase id q.active }

freed-Inv : (q : Queue) (id : ℕ) → Inv q → Inv (freed q id)
freed-Inv q id v = record {
  core = v.core;
  busy = v.busy;
  cursor_in = v.cursor_in;
  capacity = v.capacity;
  apart = λ i e. ground (arith, find-erase id i q.active, v.apart i e);
  within = omega (arith, length-erase id q.active, v.within);
}

pub release-Inv : (q : Queue) (id : ℕ) → Inv q → Inv (release q id).0
unfolding release
release-Inv q id v = elim (Option-cases (find id q.active)) [
  | inl e ↦ rw (e, release) v
  | inr (t, e) ↦ rw (e, release) (decrement_active-Inv (freed q id) t.user_id (freed-Inv q id v))
]

-- How `Cancel` comes out: an active ticket is let go, a waiting one removed, any other is unknown.
cancel_cases :
    (q : Queue) (id now : ℕ)
    → Inv q
    → ((t : Ticket) × (find id q.active ≡ some t)
        × (cancel q id now ≡ (
          decrement_active (freed q id) t.user_id,
          some (record { ticket = t; canceled_at = now; was_active = true }),
        )))
      ⊎ (((find id q.active ≡ none)
            × (find id q.waiting_ticket ≡ none)
            × (cancel q id now ≡ (q, none)))
          ⊎ ((r : Queue) × (t : Ticket) × (u : ℕ) × (rest : List Ticket) × (find id q.active ≡ none)
              × (cancel q id now
                  ≡ (r, some (record { ticket = t; canceled_at = now; was_active = false })))
              × (t.id ≡ id)
              × IsRemoved q r u rest id))
unfolding cancel
cancel_cases q id now v = elim (Option-cases (find id q.active)) [
  | inr (t, e) ↦ inl (t, e, ground (arith, e))
  | inl idle ↦ elim (Option-cases (find id q.waiting_ticket)) [
    | inl e ↦ inr (inl (idle, e, ground (arith, e, idle)))
    | inr (u, e) ↦
        let (r, t, before, after, found, same_id, _, gone) = remove_waiting_lem q u id v e in
        inr (inr (r, t, u, before ++ after, idle, ground (arith, idle, e, found), same_id, gone))
  ]
]

pub cancel-Inv : (q : Queue) (id now : ℕ) → Inv q → Inv (cancel q id now).0
cancel-Inv q id now v = elim (cancel_cases q id now v) [
  | inl (t, _, e) ↦ rw e (decrement_active-Inv (freed q id) t.user_id (freed-Inv q id v))
  | inr (inl (_, _, e)) ↦ rw e v
  | inr (inr (r, t, u, rest, _, e, _, gone)) ↦ rw e gone.inv
]

cancel_unknown :
    (q : Queue) (id now : ℕ)
    → find id q.waiting_ticket ≡ none
    → find id q.active ≡ none
    → cancel q id now ≡ (q, none)
unfolding cancel
cancel_unknown q id now e f = ground arith

active_not_waiting :
    (q : Queue) (id : ℕ) (t : Ticket)
    → Inv q
    → find id q.active ≡ some t
    → find id q.waiting_ticket ≡ none
active_not_waiting q id t v e = elim (Option-cases (find id q.waiting_ticket)) [
  | inl f ↦ f
  | inr (u, f) ↦ ground (arith, v.apart id)
]

cancel_clears :
    (q : Queue) (id now : ℕ)
    → Inv q
    → let r = (cancel q id now).0 in (find id r.waiting_ticket ≡ none) × (find id r.active ≡ none)
unfolding decrement_active
cancel_clears q id now v = elim (cancel_cases q id now v) [
  | inl (t, active, e) ↦
      rw e (active_not_waiting q id t v active, ground (arith, find-erase id id q.active))
  | inr (inl (idle, unknown, e)) ↦ rw e (unknown, idle)
  | inr (inr (r, t, u, rest, idle, e, _, gone)) ↦ rw e (
    rw gone.unfiled (ground (arith, find-erase id id q.waiting_ticket)),
    rw gone.same_active idle,
  )
]

-- Only the canceled ticket waits no more.
pub cancel-waiting_ticket :
    (q : Queue) (id now i : ℕ)
    → Inv q
    → find i (cancel q id now).0.waiting_ticket
      ≡ (if id == i then none else find i q.waiting_ticket)
unfolding decrement_active
cancel-waiting_ticket q id now i v = elim (cancel_cases q id now v) [
  | inl (t, active, e) ↦ rw e (unknown i (active_not_waiting q id t v active))
  | inr (inl (idle, none_waits, e)) ↦ rw e (unknown i none_waits)
  | inr (inr (r, t, u, rest, idle, e, _, gone)) ↦
      rw e (rw gone.unfiled (find-erase id i q.waiting_ticket))
]
  where
    unknown :
        (i : ℕ)
        → find id q.waiting_ticket ≡ none
        → find i q.waiting_ticket ≡ (if id == i then none else find i q.waiting_ticket)
    unknown i h = elim (Bool-cases (id == i)) [
      | inl e ↦ rw e (ap (λ j. find j q.waiting_ticket) (sym (==→≡ id i e)) ∙ h)
      | inr e ↦ rw e refl
    ]

pub release-waiting_ticket :
    (q : Queue) (id : ℕ) → (release q id).0.waiting_ticket ≡ q.waiting_ticket
unfolding release decrement_active
release-waiting_ticket q id = elim (Option-cases (find id q.active)) [
  | inl e ↦ rw (e, release) refl
  | inr (t, e) ↦ rw (e, release) refl
]

-- A canceled ticket, waiting or active, is known no more, and canceling it again finds nothing and
-- changes nothing.
pub cancel_forgets :
    (q : Queue) (id now later : ℕ)
    → Inv q
    → let r = (cancel q id now).0 in
      (find id r.waiting_ticket ≡ none)
      × (find id r.active ≡ none)
      × (cancel r id later ≡ (r, none))
cancel_forgets q id now later v =
    let (waiting, active) = cancel_clears q id now v in
    (waiting, active, cancel_unknown (cancel q id now).0 id later waiting active)

pub dispatch-lem :
    (q : Queue) (now : ℕ)
    → Inv q
    → IsExpired now q (expire q now).0 (expire q now).1
      × IsFilled (expire q now).0 (dispatch q now).0 (dispatch q now).1.admitted
unfolding dispatch
dispatch-lem q now v =
    let e = expire-IsExpired q now v in
    (e, fill-IsFilled (expire q now).0.config.max_active (expire q now).0 now e.inv (omega arith))

pub dispatch_expired : (q : Queue) (now : ℕ) → (dispatch q now).1.expired ≡ (expire q now).1
unfolding dispatch
dispatch_expired q now = refl

pub dispatch-Inv : (q : Queue) (now : ℕ) → Inv q → Inv (dispatch q now).0
dispatch-Inv q now v = (dispatch-lem q now v).1.inv

-- The public operations, at the readings of the clock.
pub data Operation : Type 0 where
  enqueues : Request → ℕ → Operation
  dispatches : ℕ → Operation
  cancels : ℕ → ℕ → Operation
  releases : ℕ → Operation

-- A refused request leaves the queue as it was.
abbrev after : Queue → Result (Queue × Ticket) → Queue
after q (err e) = q
after q (ok (q', t)) = q'

unfoldable pub step : Queue → Operation → Queue
step q (enqueues r now) = after q (enqueue q r now)
step q (dispatches now) = (dispatch q now).0
step q (cancels id now) = (cancel q id now).0
step q (releases id) = (release q id).0

unfoldable pub run : Queue → List Operation → Queue
run q [] = q
run q (o ∷ os) = run (step q o) os

enqueue_after-Inv : (q : Queue) (r : Request) (now : ℕ) → Inv q → Inv (after q (enqueue q r now))
enqueue_after-Inv q r now v = go (enqueue q r now) refl
  where
    go : (m : Result (Queue × Ticket)) → enqueue q r now ≡ m → Inv (after q m)
    go (err e) h = v
    go (ok (q', t)) h = enqueue-Inv q r now v h

step-Inv : (q : Queue) (o : Operation) → Inv q → Inv (step q o)
unfolding step
step-Inv q (enqueues r now) v = enqueue_after-Inv q r now v
step-Inv q (dispatches now) v = dispatch-Inv q now v
step-Inv q (cancels id now) v = cancel-Inv q id now v
step-Inv q (releases id) v = release-Inv q id v

-- After any history of requests, dispatches, cancelations and releases, a queue is well formed: its
-- counter is the number of waiting tickets, the users in rotation are exactly those with a ticket
-- waiting, each once, a ticket is filed under its own user, no ticket is both waiting and active,
-- and both numbers are within the configured limits.
pub run-Inv :
    (input : ConfigInput) (has_clock : Bool) (history : List Operation) {q : Queue}
    → new_queue input has_clock ≡ ok q
    → Inv (run q history)
unfolding run
run-Inv input has_clock history {q} made = go q history (new_queue-Inv input has_clock made)
  where
    go : (q : Queue) (os : List Operation) → Inv q → Inv (run q os)
    go q [] v = v
    go q (o ∷ os) v = go (step q o) os (step-Inv q o v)

-- In a well-formed queue, dispatch expires exactly the tickets whose deadline has come, and then
-- admits: afterwards the active tickets are within the configured number, and are that many or none
-- waits. As many tickets wait, have expired or are admitted as waited before, and each admitted one
-- occupies a new active slot.
pub dispatch_conserves :
    (q : Queue) (now : ℕ)
    → Inv q
    → let (r, d) = dispatch q now in
      (length r.active ≤ r.config.max_active)
      × ((length r.active ≡ r.config.max_active) ⊎ (r.waiting_count ≡ 0))
      × (d.expired ≡ all_elapsed now (queue_of q.waiting) q.user_order)
      × (r.waiting_count + length d.expired + length d.admitted ≡ q.waiting_count)
      × (length r.active ≡ length q.active + length d.admitted)
dispatch_conserves q now v =
    let (e, f) = dispatch-lem q now v in
    let same = dispatch_expired q now in
    (
      f.inv.within,
      f.conserving,
      same ∙ e.gone_all,
      omega (arith, e.expires.counted, f.served, ap length same),
      omega (arith, f.occupied, ap length e.expires.same_active),
    )
