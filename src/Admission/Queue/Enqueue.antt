-- ===== src/Admission/Queue/Enqueue.antt =====
-- internal/admission/queue.go: `Enqueue` puts a ticket at the end of its user's queue.
use mathlib.Core.Path.{subst}
use llm2api.Prelude.{
  Distinct, has, ℕ, ◌+◌, ◌≤◌, ◌<◌, ◌≡◌, refl, sym, ap, inl, inr, true, false, none, some, List, [],
  ◌∷◌, ◌++◌, length, arith, ◌==◌, if◌then◌else◌, Assoc, find, assign, find-assign, Bool-cases, ==→≡,
  length-append,
}
use llm2api.Admission.Types.{Ticket}
use llm2api.Admission.Queue.{Queue, queue_of, is_empty, push_ticket}
use llm2api.Admission.Queue.Core.{
  Core, Held, has_id, has_id-append, total, replaced, total-replaced, total-replaced_out,
}
use llm2api.Admission.Queue.Invariant.{Inv, queue_of-assign}

Held-absent :
    (wt : Assoc ℕ) (u id : ℕ) (ts : List Ticket)
    → Held wt u ts
    → find id wt ≡ none
    → has_id id ts ≡ false
Held-absent wt u id [] h e = refl
Held-absent wt u id (t ∷ ts) (a, b, c, h) e =
    ground (arith, Held-absent wt u id ts h e, ap (λ i. find i wt) {x = id} {y = t.id})

Held-assign :
    (wt : Assoc ℕ) (u id x : ℕ) (ts : List Ticket)
    → find id wt ≡ none
    → Held wt u ts
    → Held (assign id x wt) u ts
Held-assign wt u id x [] e h = tt
Held-assign wt u id x (t ∷ ts) e (a, b, c, h) =
    (a, ground (arith, find-assign id t.id x wt), c, Held-assign wt u id x ts e h)

Held-snoc :
    (wt : Assoc ℕ) (t : Ticket) (ts : List Ticket)
    → Held wt t.user_id ts
    → has_id t.id ts ≡ false
    → find t.id wt ≡ some t.user_id
    → Held wt t.user_id (ts ++ t ∷ [])
Held-snoc wt t [] h f e = (refl, e, refl, tt)
Held-snoc wt t (x ∷ xs) (a, b, c, h) f e =
    (a, b, ground (arith, has_id-append x.id xs (t ∷ [])), Held-snoc wt t xs h (ground arith) e)

has-append : (x u : ℕ) (us : List ℕ) → has x (us ++ u ∷ []) ≡ (if has x us then true else x == u)
has-append x u [] = ground arith
has-append x u (v ∷ vs) = ground (arith, has-append x u vs)

Distinct-snoc : (u : ℕ) (us : List ℕ) → Distinct us → has u us ≡ false → Distinct (us ++ u ∷ [])
Distinct-snoc u [] d h = (refl, tt)
Distinct-snoc u (v ∷ vs) (d, ds) h =
    (ground (arith, has-append v u vs), Distinct-snoc u vs ds (ground arith))

total-snoc :
    (w : ℕ → List Ticket) (u : ℕ) (us : List ℕ) → total w (us ++ u ∷ []) ≡ total w us + length (w u)
total-snoc w u [] = omega arith
total-snoc w u (v ∷ vs) = omega (arith, total-snoc w u vs)

module _ (w : ℕ → List Ticket) (wt : Assoc ℕ) (order : List ℕ) (n : ℕ) (t : Ticket)
    (v : Core w wt order n) (fresh : find t.id wt ≡ none) where
  pushed : ℕ → List Ticket
  pushed = replaced w t.user_id (w t.user_id ++ t ∷ [])

  filed_now : find t.id (assign t.id t.user_id wt) ≡ some t.user_id
  filed_now = ground (arith, find-assign t.id t.id t.user_id wt)

  pushed-Held : (x : ℕ) → Held (assign t.id t.user_id wt) x (pushed x)
  unfolding pushed
  pushed-Held x =
      let kept = Held-assign wt x t.id t.user_id (w x) fresh (v.held x) in
      elim (Bool-cases (t.user_id == x)) [
        | inl e ↦
            rw (e, ← ==→≡ t.user_id x e)
              (Held-snoc (assign t.id t.user_id wt) t (w t.user_id)
                (Held-assign wt t.user_id t.id t.user_id (w t.user_id) fresh (v.held t.user_id))
                (Held-absent wt t.user_id t.id (w t.user_id) (v.held t.user_id) fresh) filed_now)
        | inr e ↦ rw e kept
      ]

  pushed_filed :
      (id x : ℕ) → find id (assign t.id t.user_id wt) ≡ some x → has_id id (pushed x) ≡ true
  unfolding pushed
  pushed_filed id x f = ground (
    arith,
    find-assign t.id id t.user_id wt,
    v.filed id x,
    has_id-append id (w t.user_id) (t ∷ []),
  )

  -- The order of users, with the user added where its queue was empty.
  ordered : List ℕ
  ordered = if is_empty (w t.user_id) then order ++ t.user_id ∷ [] else order

  module _ (busy : (u : ℕ) → has u order ≡ true → is_empty (w u) ≡ false) where
    unlisted : is_empty (w t.user_id) ≡ true → has t.user_id order ≡ false
    unlisted e = ground (arith, busy t.user_id)

    listed : is_empty (w t.user_id) ≡ false → has t.user_id order ≡ true
    listed e = ground (arith, v.covers t.user_id)

    has-ordered : (x : ℕ) → has x ordered ≡ (if has x order then true else x == t.user_id)
    unfolding ordered
    has-ordered x = elim (Bool-cases (is_empty (w t.user_id))) [
      | inl e ↦ rw e (has-append x t.user_id order)
      | inr e ↦ rw e (ground (arith, listed e, ap (λ y. has y order) {x = x} {y = t.user_id}))
    ]

    length-pushed : length (pushed t.user_id) ≡ length (w t.user_id) + 1
    unfolding pushed
    length-pushed = ground (arith, length-append (w t.user_id) (t ∷ []))

    pushed_counted : n + 1 ≡ total pushed ordered
    unfolding pushed ordered
    pushed_counted = elim (Bool-cases (is_empty (w t.user_id))) [
      | inl e ↦ rw e (
          omega (
            arith,
            total-snoc pushed t.user_id order,
            total-replaced_out w t.user_id (w t.user_id ++ t ∷ []) order (unlisted e),
            length-pushed,
            ap length (v.covers t.user_id (unlisted e)),
            v.counted,
          ))
      | inr e ↦ rw e (
          omega (
            arith,
            total-replaced w t.user_id (w t.user_id ++ t ∷ []) order v.distinct (listed e),
            length-append (w t.user_id) (t ∷ []),
            v.counted,
          ))
    ]

    pushed-Distinct : Distinct ordered
    unfolding ordered
    pushed-Distinct = elim (Bool-cases (is_empty (w t.user_id))) [
      | inl e ↦ rw e (Distinct-snoc t.user_id order v.distinct (unlisted e))
      | inr e ↦ rw e v.distinct
    ]

    Core-push : Core pushed (assign t.id t.user_id wt) ordered (n + 1)
    Core-push = record {
      distinct = pushed-Distinct;
      covers = λ x h. unfold pushed in ground (arith, has-ordered x, v.covers x);
      counted = pushed_counted;
      held = pushed-Held;
      filed = pushed_filed;
    }

    pushed_busy : (x : ℕ) → has x ordered ≡ true → is_empty (pushed x) ≡ false
    unfolding pushed
    pushed_busy x h = ground (arith, has-ordered x, busy x, snoc_nonempty (w t.user_id))
      where
        snoc_nonempty : (ts : List Ticket) → is_empty (ts ++ t ∷ []) ≡ false
        snoc_nonempty [] = refl
        snoc_nonempty (y ∷ ys) = refl

length-ordered :
    (w : ℕ → List Ticket) (order : List ℕ) (u : ℕ)
    → length order ≤ length (if is_empty (w u) then order ++ u ∷ [] else order)
length-ordered w order u = ground (arith, length-append order (u ∷ []))

pub push_ticket-Inv :
    (q : Queue) (t : Ticket)
    → Inv q
    → find t.id q.waiting_ticket ≡ none
    → find t.id q.active ≡ none
    → q.waiting_count < q.config.max_queued
    → Inv (push_ticket q t)
unfolding ordered pushed
push_ticket-Inv q t v fresh idle room =
    let w = queue_of q.waiting in
    let core = Core-push w q.waiting_ticket q.user_order q.waiting_count t v.core fresh v.busy in
    let same = queue_of-assign q.waiting t.user_id (w t.user_id ++ t ∷ []) in
    record {
      core =
          subst
            (λ f.
              Core f (assign t.id t.user_id q.waiting_ticket)
                (if is_empty (w t.user_id) then q.user_order ++ t.user_id ∷ [] else q.user_order)
                (q.waiting_count + 1))
            (sym same) core;
      busy =
          subst
            (λ (f : ℕ → List Ticket).
              (x : ℕ)
              → has x
                  (if is_empty (w t.user_id) then q.user_order ++ t.user_id ∷ [] else q.user_order)
                ≡ true
              → is_empty (f x) ≡ false)
            (sym same)
            (pushed_busy w q.waiting_ticket q.user_order q.waiting_count t v.core fresh v.busy);
      cursor_in = omega (arith, v.cursor_in, length-ordered w q.user_order t.user_id);
      capacity = omega arith;
      apart = λ id e. ground (
        arith,
        find-assign t.id id t.user_id q.waiting_ticket,
        v.apart id,
        idle,
        ap (λ i. find i q.active) {x = id} {y = t.id},
      );
      within = v.within;
    }
