-- ===== src/Admission/Queue/Expire.antt =====
-- internal/admission/queue.go: `expireLocked` drops the tickets whose deadline has come.
use mathlib.Core.Path.{fun_ext, subst, ap₂}
use mathlib.Core.List.{append_assoc}
use llm2api.Prelude.{
  Distinct, has, ℕ, ◌+◌, ◌-◌, ◌<◌, ◌≡◌, refl, sym, ap, ◌∙◌, inl, inr, true, false, List, [], ◌∷◌,
  ◌++◌, length, arith, leb, ◌==◌, if◌then◌else◌, Assoc, find, assign, erase, find-erase, Bool-cases,
  length-append, ==→≡,
}
use llm2api.Admission.Types.{Ticket, Expiration}
use llm2api.Admission.Queue.{Queue, queue_of, is_empty, is_some, expire_tickets, expire_users}
use llm2api.Admission.Queue.Core.{Core, Core-remove, Core-filed, replaced}
use llm2api.Admission.Queue.Filed.{unfile, AllFiled, unfile-append, AllFiled-append}
use llm2api.Admission.Queue.Invariant.{queue_of-assign, queue_of-erase}

-- The tickets whose deadline has not come, and those whose deadline has.
abbrev pub live : ℕ → List Ticket → List Ticket
live now [] = []
live now (t ∷ ts) = if leb t.deadline now then live now ts else t ∷ live now ts

abbrev pub elapsed : ℕ → List Ticket → List Ticket
elapsed now [] = []
elapsed now (t ∷ ts) = if leb t.deadline now then t ∷ elapsed now ts else elapsed now ts

abbrev pub expirations : ℕ → List Ticket → List Expiration
expirations now [] = []
expirations now (t ∷ ts) = record { ticket = t; expired_at = now } ∷ expirations now ts

abbrev pub expired_ids : List Expiration → List ℕ
expired_ids [] = []
expired_ids (e ∷ es) = e.ticket.id ∷ expired_ids es

expired_ids-append :
    (xs ys : List Expiration) → expired_ids (xs ++ ys) ≡ expired_ids xs ++ expired_ids ys
expired_ids-append [] ys = refl
expired_ids-append (x ∷ xs) ys = ap (λ ids. x.ticket.id ∷ ids) (expired_ids-append xs ys)

-- What stays of a queue while its waiting tickets expire.
pub record Expires (q r : Queue) (gone : List Expiration) : Type 0 where
  pub counted : r.waiting_count + length gone ≡ q.waiting_count
  pub forgets :
      (id : ℕ)
      → is_some (find id r.waiting_ticket) ≡ true
      → is_some (find id q.waiting_ticket) ≡ true
  pub filed : AllFiled (expired_ids gone) q.waiting_ticket
  pub unfiled : r.waiting_ticket ≡ unfile (expired_ids gone) q.waiting_ticket
  pub same_active : r.active ≡ q.active
  pub same_config : r.config ≡ q.config

Expires-trans :
    (p q r : Queue) (xs ys : List Expiration)
    → Expires p q xs
    → Expires q r ys
    → Expires p r (xs ++ ys)
Expires-trans p q r xs ys v w = record {
  counted = omega (arith, v.counted, w.counted, length-append xs ys);
  forgets = λ id e. v.forgets id (w.forgets id e);
  filed = rw (expired_ids-append xs ys) (
      AllFiled-append (expired_ids xs) (expired_ids ys) p.waiting_ticket v.filed
        (rw v.unfiled at w.filed));
  unfiled =
      w.unfiled
      ∙ ap (unfile (expired_ids ys)) v.unfiled
      ∙ sym (unfile-append (expired_ids xs) (expired_ids ys) p.waiting_ticket)
      ∙ ap (λ ids. unfile ids p.waiting_ticket) (sym (expired_ids-append xs ys));
  same_active = w.same_active ∙ v.same_active;
  same_config = w.same_config ∙ v.same_config;
}

-- The queue without one ticket.
abbrev forget : Queue → Ticket → Queue
forget q t = record q {
  waiting_ticket = erase t.id q.waiting_ticket;
  waiting_count = q.waiting_count - 1;
}

forget-Expires :
    (q : Queue) (t : Ticket) (now : ℕ)
    → 0 < q.waiting_count
    → is_some (find t.id q.waiting_ticket) ≡ true
    → Expires q (forget q t) (record { ticket = t; expired_at = now } ∷ [])
forget-Expires q t now h there = record {
  counted = omega arith;
  forgets = λ id e. ground (arith, find-erase t.id id q.waiting_ticket);
  filed = (there, tt);
  unfiled = refl;
  same_active = refl;
  same_config = refl;
}

pub Expires-refl : (q : Queue) → Expires q q []
Expires-refl q = record {
  counted = omega arith;
  forgets = λ id e. e;
  filed = tt;
  unfiled = refl;
  same_active = refl;
  same_config = refl;
}

expire_tickets_values :
    (now : ℕ) (ts : List Ticket) (q : Queue)
    → ((expire_tickets now ts q).0 ≡ live now ts)
      × ((expire_tickets now ts q).2 ≡ expirations now (elapsed now ts))
      × ((expire_tickets now ts q).1.waiting ≡ q.waiting)
unfolding expire_tickets
expire_tickets_values now [] q = (refl, refl, refl)
expire_tickets_values now (t ∷ ts) q =
    ground (arith, expire_tickets_values now ts (forget q t), expire_tickets_values now ts q)

==_cong : (w : ℕ → List Ticket) (u x : ℕ) → (u == x) ≡ true → w u ≡ w x
==_cong w u x e = ap w (==→≡ u x e)

replaced_twice :
    (w : ℕ → List Ticket) (u : ℕ) (xs ys : List Ticket)
    → replaced (replaced w u xs) u ys ≡ replaced w u ys
replaced_twice w u xs ys = fun_ext (λ x. ground arith)

replaced_same : (w : ℕ → List Ticket) (u : ℕ) → replaced w u (w u) ≡ w
replaced_same w u = fun_ext (λ x. ground (arith, ==_cong w u x))

module _ (w : ℕ → List Ticket) (order : List ℕ) (u now : ℕ) where
  shift :
      (pre : List Ticket) (t : Ticket) (ts : List Ticket) → (pre ++ t ∷ []) ++ ts ≡ pre ++ t ∷ ts
  shift pre t ts = append_assoc pre (t ∷ []) ts

  -- One user's tickets, of which `pre` were kept.
  expire_tickets-Core :
      (ts pre : List Ticket) (q : Queue)
      → Core (replaced w u (pre ++ ts)) q.waiting_ticket order q.waiting_count
      → let (kept, r, gone) = expire_tickets now ts q in
        Core (replaced w u (pre ++ kept)) r.waiting_ticket order r.waiting_count × Expires q r gone
  unfolding expire_tickets
  expire_tickets-Core [] pre q v = (v, Expires-refl q)
  expire_tickets-Core (t ∷ ts) pre q v = elim (Bool-cases (leb t.deadline now)) [
    | inl gone ↦
        let (core, some_wait) =
          Core-remove (replaced w u (pre ++ t ∷ ts)) q.waiting_ticket order q.waiting_count u pre t
            ts v (ground arith) in
        let there =
          Core-filed (replaced w u (pre ++ t ∷ ts)) q.waiting_ticket order q.waiting_count u pre t
            ts v (ground arith) in
        let (c, e) = expire_tickets-Core ts pre (forget q t) (
          subst (λ f. Core f (erase t.id q.waiting_ticket) order (q.waiting_count - 1))
            (replaced_twice w u (pre ++ t ∷ ts) (pre ++ ts)) core) in
        rw gone (
          c,
          Expires-trans q (forget q t) _ _ _ (forget-Expires q t now some_wait (ap is_some there))
              e,
        )
    | inr stays ↦
        let (c, e) = expire_tickets-Core ts (pre ++ t ∷ []) q (rw (shift pre t ts) v) in
        rw stays (rw (shift pre t (expire_tickets now ts q).0) at c, e)
  ]

-- One user's turn in the loop over the users.
abbrev turn : ℕ → ℕ → Queue → Queue
turn now u q =
    let kept = (expire_tickets now (queue_of q.waiting u) q).0 in
    let q' = (expire_tickets now (queue_of q.waiting u) q).1 in
    record q' { waiting = if is_empty kept then erase u q'.waiting else assign u kept q'.waiting }

kept_queues :
    (m : Assoc (List Ticket)) (u : ℕ) (kept : List Ticket)
    → queue_of (if is_empty kept then erase u m else assign u kept m) ≡ replaced (queue_of m) u kept
kept_queues m u [] = queue_of-erase m u
kept_queues m u (t ∷ ts) = queue_of-assign m u (t ∷ ts)

turn_queues :
    (now u : ℕ) (q : Queue)
    → queue_of (turn now u q).waiting
      ≡ replaced (queue_of q.waiting) u (live now (queue_of q.waiting u))
turn_queues now u q =
    let (kept, _, same) = expire_tickets_values now (queue_of q.waiting u) q in
    rw (kept, same) (kept_queues q.waiting u (live now (queue_of q.waiting u)))

turn-Core :
    (now u : ℕ) (q : Queue) (order : List ℕ)
    → Core (queue_of q.waiting) q.waiting_ticket order q.waiting_count
    → let r = turn now u q in
      Core (queue_of r.waiting) r.waiting_ticket order r.waiting_count
      × Expires q r (expirations now (elapsed now (queue_of q.waiting u)))
turn-Core now u q order v =
    let (kept, gone, same) = expire_tickets_values now (queue_of q.waiting u) q in
    let r = turn now u q in
    let (core, e) =
      expire_tickets-Core (queue_of q.waiting) order u now (queue_of q.waiting u) [] q (
        subst (λ f. Core f q.waiting_ticket order q.waiting_count)
          (sym (replaced_same (queue_of q.waiting) u)) v) in
    (
      subst (λ f. Core f r.waiting_ticket order r.waiting_count) (sym (turn_queues now u q))
          (rw kept at core),
      rw gone at (turned e),
    )
  where
    turned :
        Expires q
          (expire_tickets now (queue_of q.waiting u) q).1
          (expire_tickets now (queue_of q.waiting u) q).2
        → Expires q (turn now u q) (expire_tickets now (queue_of q.waiting u) q).2
    turned e = record {
      counted = e.counted;
      forgets = e.forgets;
      filed = e.filed;
      unfiled = e.unfiled;
      same_active = e.same_active;
      same_config = e.same_config;
    }

-- The users with a queue left, in their order, and what expires, user by user.
abbrev pub with_queue : (ℕ → List Ticket) → List ℕ → List ℕ
with_queue w [] = []
with_queue w (u ∷ us) = if is_empty (w u) then with_queue w us else u ∷ with_queue w us

abbrev pub all_elapsed : ℕ → (ℕ → List Ticket) → List ℕ → List Expiration
all_elapsed now w [] = []
all_elapsed now w (u ∷ us) = expirations now (elapsed now (w u)) ++ all_elapsed now w us

-- The queues once the users of a list have had their turn.
abbrev pub swept : ℕ → (ℕ → List Ticket) → List ℕ → ℕ → List Ticket
swept now w us x = if has x us then live now (w x) else w x

pub record IsSwept (now : ℕ) (us order : List ℕ) (q r : Queue) (left : List ℕ)
    (gone : List Expiration) : Type 0 where
  pub core : Core (queue_of r.waiting) r.waiting_ticket order r.waiting_count
  pub queues : queue_of r.waiting ≡ swept now (queue_of q.waiting) us
  pub left_with : left ≡ with_queue (queue_of r.waiting) us
  pub gone_all : gone ≡ all_elapsed now (queue_of q.waiting) us
  pub expires : Expires q r gone

swept_cons :
    (now : ℕ) (w : ℕ → List Ticket) (u : ℕ) (us : List ℕ)
    → has u us ≡ false
    → swept now (replaced w u (live now (w u))) us ≡ swept now w (u ∷ us)
swept_cons now w u us d = fun_ext (λ x. ground (arith, ==_cong w u x))

all_elapsed_out :
    (now : ℕ) (w : ℕ → List Ticket) (u : ℕ) (ts : List Ticket) (us : List ℕ)
    → has u us ≡ false
    → all_elapsed now (replaced w u ts) us ≡ all_elapsed now w us
all_elapsed_out now w u ts [] d = refl
all_elapsed_out now w u ts (x ∷ xs) d = ground (arith, all_elapsed_out now w u ts xs)

pub expire_users-IsSwept :
    (now : ℕ) (us order : List ℕ) (q : Queue)
    → Distinct us
    → Core (queue_of q.waiting) q.waiting_ticket order q.waiting_count
    → let (r, left, gone) = expire_users now us q in IsSwept now us order q r left gone
unfolding expire_users
expire_users-IsSwept now [] order q d v = record {
  core = v;
  queues = refl;
  left_with = refl;
  gone_all = refl;
  expires = Expires-refl q;
}
expire_users-IsSwept now (u ∷ us) order q (d, ds) v =
    let (kept, gone, same) = expire_tickets_values now (queue_of q.waiting u) q in
    let (core, e) = turn-Core now u q order v in
    let s = expire_users-IsSwept now us order (turn now u q) ds core in
    let w = queue_of q.waiting in
    let queues =
      s.queues ∙ (ap (λ f. swept now f us) (turn_queues now u q) ∙ swept_cons now w u us d) in
    record {
      core = s.core;
      queues = queues;
      left_with = ground (arith, kept, s.left_with, ap (λ (f : ℕ → List Ticket). f u) queues);
      gone_all = ap₂ ◌++◌ gone (
          s.gone_all
          ∙ (ap (λ f. all_elapsed now f us) (turn_queues now u q)
              ∙ all_elapsed_out now w u (live now (w u)) us d));
      expires = rw gone (Expires-trans q (turn now u q) _ _ _ e s.expires);
    }
