-- ===== src/Admission/Queue/Fill.antt =====
-- internal/admission/queue.go: the admission loop of `Dispatch`.
use mathlib.Core.Path.{subst}
use llm2api.Prelude.{
  ℕ, zero, suc, ◌+◌, ◌≤◌, ◌<◌, ◌≡◌, refl, ap, ◌∙◌, true, erase, ◌⊎◌, inl, inr, none, some, List, [],
  ◌∷◌, length, arith, ltb, Assoc, find, find-assign, find-erase, Bool-cases, length-assign_new,
  get_elem?,
}
use llm2api.Admission.Types.{Ticket, Admission}
use llm2api.Admission.Queue.{Queue, queue_of, take_at, take_next, admit, fill, is_some}
use llm2api.Admission.Queue.Filed.{unfile, AllFiled}
use llm2api.Admission.Queue.Core.{Held}
use llm2api.Admission.Queue.Invariant.{Inv}
use llm2api.Admission.Queue.Take.{take_at-Inv, take_next_lem}

-- The next ticket, as the loop sees it: a smaller well-formed queue in which the ticket is unknown.
pub record IsNext (q r : Queue) (t : Ticket) : Type 0 where
  pub inv : Inv r
  pub fewer : r.waiting_count + 1 ≡ q.waiting_count
  pub same : (r.active ≡ q.active) × (r.config ≡ q.config)
  pub filed : is_some (find t.id q.waiting_ticket) ≡ true
  pub unfiled : r.waiting_ticket ≡ erase t.id q.waiting_ticket
  pub not_waiting : find t.id r.waiting_ticket ≡ none
  pub not_active : find t.id r.active ≡ none

head_filed :
    (wt : Assoc ℕ) (u : ℕ) (ts : List Ticket) (t : Ticket) (rest : List Ticket)
    → ts ≡ t ∷ rest
    → Held wt u ts
    → find t.id wt ≡ some u
head_filed wt u [] t rest e h = cc
head_filed wt u (x ∷ xs) t rest e h = ground arith

take_at-IsNext :
    (q : Queue) (index user : ℕ) (t : Ticket) (rest : List Ticket)
    → Inv q
    → 0 < q.waiting_count
    → get_elem? q.user_order index ≡ some user
    → queue_of q.waiting user ≡ t ∷ rest
    → IsNext q (take_at q index user t rest) t
unfolding take_at
take_at-IsNext q index user t rest v some_wait at head =
    let filed =
      head_filed q.waiting_ticket user (queue_of q.waiting user) t rest head (v.core.held user) in
    let free = v.apart t.id (rw filed) in
    record {
      inv = take_at-Inv q index user t v at rest head;
      fewer = ground arith;
      same = ground arith;
      filed = ap is_some filed;
      unfiled = ground arith;
      not_waiting = ground (arith, find-erase t.id t.id q.waiting_ticket);
      not_active = ground (arith, free);
    }

pub take_next_cases :
    (q : Queue)
    → Inv q
    → ((q.waiting_count ≡ 0) × (take_next q ≡ none))
      ⊎ ((r : Queue) × (t : Ticket) × (take_next q ≡ some (r, t)) × IsNext q r t)
take_next_cases q v = elim (take_next_lem q v) [
  | inl e ↦ inl e
  | inr (user, t, rest, some_wait, at, head, e) ↦ inr (
    take_at q q.cursor user t rest,
    t,
    e,
    take_at-IsNext q q.cursor user t rest v some_wait at head,
  )
]

admit-Inv :
    (q r : Queue) (t : Ticket)
    → IsNext q r t
    → length r.active < r.config.max_active
    → Inv (admit r t)
unfolding admit
admit-Inv q r t n room = record {
  core = n.inv.core;
  busy = n.inv.busy;
  cursor_in = n.inv.cursor_in;
  capacity = n.inv.capacity;
  apart = λ id e. ground (arith, find-assign t.id id t r.active, n.inv.apart id e, n.not_waiting);
  within = omega (arith, length-assign_new t.id t r.active n.not_active);
}

admit_sizes :
    (r : Queue) (t : Ticket)
    → find t.id r.active ≡ none
    → (length (admit r t).active ≡ length r.active + 1)
      × ((admit r t).waiting_count ≡ r.waiting_count)
      × ((admit r t).config ≡ r.config)
unfolding admit
admit_sizes r t free = (length-assign_new t.id t r.active free, refl, refl)

abbrev pub admitted_ids : List Admission → List ℕ
admitted_ids [] = []
admitted_ids (a ∷ rest) = a.ticket.id ∷ admitted_ids rest

admit_files : (r : Queue) (t : Ticket) → (admit r t).waiting_ticket ≡ r.waiting_ticket
unfolding admit
admit_files r t = refl

-- What the loop does, on enough fuel: it admits waiting tickets until the active ones are as many
-- as configured or none waits.
pub record IsFilled (q r : Queue) (admitted : List Admission) : Type 0 where
  pub inv : Inv r
  pub served : r.waiting_count + length admitted ≡ q.waiting_count
  pub occupied : length r.active ≡ length q.active + length admitted
  pub conserving : (length r.active ≡ r.config.max_active) ⊎ (r.waiting_count ≡ 0)
  pub filed : AllFiled (admitted_ids admitted) q.waiting_ticket
  pub unfiled : r.waiting_ticket ≡ unfile (admitted_ids admitted) q.waiting_ticket
  pub same_config : r.config ≡ q.config

unchanged :
    (q : Queue)
    → Inv q
    → (length q.active ≡ q.config.max_active) ⊎ (q.waiting_count ≡ 0)
    → IsFilled q q []
unchanged q v c = record {
  inv = v;
  served = omega arith;
  occupied = omega arith;
  conserving = c;
  filed = tt;
  unfiled = refl;
  same_config = refl;
}

-- One round of the loop.
fill_cases :
    (fuel : ℕ) (q : Queue) (now : ℕ)
    → ((q.config.max_active ≤ length q.active) × (fill (suc fuel) q now ≡ (q, [])))
      ⊎ ((length q.active < q.config.max_active)
          × (take_next q ≡ none → fill (suc fuel) q now ≡ (q, []))
          × ((r : Queue) (t : Ticket)
              → take_next q ≡ some (r, t)
              → fill (suc fuel) q now ≡ (
                (fill fuel (admit r t) now).0,
                record { ticket = t; admitted_at = now } ∷ (fill fuel (admit r t) now).1,
              )))
unfolding fill
fill_cases fuel q now = elim (Bool-cases (ltb (length q.active) q.config.max_active)) [
  | inr full ↦ inl (ground arith, ground arith)
  | inl room ↦ inr (ground arith, λ e. ground arith, λ r t e. ground arith)
]

pub fill-IsFilled :
    (fuel : ℕ) (q : Queue) (now : ℕ)
    → Inv q
    → q.config.max_active ≤ fuel + length q.active
    → IsFilled q (fill fuel q now).0 (fill fuel q now).1
fill-IsFilled zero q now v h = unfold fill in unchanged q v (inl (omega (arith, v.within)))
fill-IsFilled (suc fuel) q now v h = elim (fill_cases fuel q now) [
  | inl (full, e) ↦ rw e (unchanged q v (inl (omega (arith, v.within))))
  | inr (room, idles, goes_on) ↦ elim (take_next_cases q v) [
    | inl (idle, e) ↦ rw (idles e) (unchanged q v (inr idle))
    | inr (r, t, e, n) ↦
        let (longer, waits, config) = admit_sizes r t n.not_active in
        let w = admit-Inv q r t n (ground arith) in
        let rest = fill-IsFilled fuel (admit r t) now w (ground arith) in
        rw (goes_on r t e) (record {
          inv = rest.inv;
          served = omega (arith, rest.served, n.fewer, waits);
          occupied = ground (arith, rest.occupied, longer);
          conserving = rest.conserving;
          filed = (
            n.filed,
            subst (AllFiled (admitted_ids (fill fuel (admit r t) now).1))
                (admit_files r t ∙ n.unfiled) rest.filed,
          );
          unfiled =
              rest.unfiled
              ∙ ap (unfile (admitted_ids (fill fuel (admit r t) now).1))
                  (admit_files r t ∙ n.unfiled);
          same_config = ground (arith, rest.same_config);
        })
  ]
]
