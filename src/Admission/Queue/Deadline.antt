-- ===== src/Admission/Queue/Deadline.antt =====
-- internal/admission/queue.go: `NextDeadline` and `Snapshot`, which only read.
use mathlib.Core.Path.{subst}
use llm2api.Prelude.{
  ◌∙◌, sym, inl, inr, ◌⊎◌, ℕ, ◌≤◌, ◌<◌, ◌≡◌, refl, ℤ, Option, none, some, List, [], ◌∷◌, length,
  arith, ltb, ◌||◌, ◌==◌, if◌then◌else◌, Assoc, Bool-cases,
}
use llm2api.Admission.Types.{Ticket}
use llm2api.Admission.Queue.{Queue}

unfoldable pub earliest_in : ℕ → List Ticket → ℕ
earliest_in earliest [] = earliest
earliest_in earliest (t ∷ ts) =
    earliest_in (if earliest == 0 || ltb t.deadline earliest then t.deadline else earliest) ts

unfoldable pub earliest_over : ℕ → Assoc (List Ticket) → ℕ
earliest_over earliest [] = earliest
earliest_over earliest ((user, ts) ∷ m) = earliest_over (earliest_in earliest ts) m

unfoldable pub next_deadline : Queue → Option ℕ
next_deadline q =
    let earliest = earliest_over 0 q.waiting in if earliest == 0 then none else some earliest

pub record Snapshot : Type 0 where
  pub waiting : ℕ
  pub active : ℕ
  pub waiting_by_user : Assoc ℕ
  pub active_by_user : Assoc ℤ

abbrev lengths : Assoc (List Ticket) → Assoc ℕ
lengths [] = []
lengths ((user, ts) ∷ m) = (user, length ts) ∷ lengths m

unfoldable pub snapshot : Queue → Snapshot
snapshot q = record {
  waiting = q.waiting_count;
  active = length q.active;
  waiting_by_user = lengths q.waiting;
  active_by_user = q.active_by_user;
}

-- The ticket stands in one of the lists.
abbrev IsIn : List Ticket → Ticket → Type 0
IsIn [] t = ⊥
IsIn (s ∷ ts) t = (t ≡ s) ⊎ IsIn ts t

abbrev pub IsWaiting : Assoc (List Ticket) → Ticket → Type 0
IsWaiting [] t = ⊥
IsWaiting ((user, ts) ∷ m) t = IsIn ts t ⊎ IsWaiting m t

-- It is the deadline of a waiting ticket, and none is earlier.
abbrev pub IsLeast : Queue → Option ℕ → Type 0
IsLeast q none = ⊥
IsLeast q (some e) =
    ((t : Ticket) × IsWaiting q.waiting t × (t.deadline ≡ e))
    × ((t : Ticket) → IsWaiting q.waiting t → e ≤ t.deadline)

-- A result that is at most what came before, once that is a time.
earliest_in-le :
    (e : ℕ) (ts : List Ticket)
    → ((t : Ticket) → IsIn ts t → 0 < t.deadline)
    → 0 < e
    → (earliest_in e ts ≤ e) × (0 < earliest_in e ts)
unfolding earliest_in
earliest_in-le e [] all h = (omega arith, h)
earliest_in-le e (t ∷ ts) all h =
    let p = all t (inl refl) in
    ground (
      arith,
      p,
      earliest_in-le t.deadline ts (λ s i. all s (inr i)) p,
      earliest_in-le e ts (λ s i. all s (inr i)) h,
    )

earliest_in-least :
    (e : ℕ) (ts : List Ticket) (t : Ticket)
    → ((s : Ticket) → IsIn ts s → 0 < s.deadline)
    → IsIn ts t
    → (earliest_in e ts ≤ t.deadline) × (0 < earliest_in e ts)
unfolding earliest_in
earliest_in-least e [] t all i = absurd i
earliest_in-least e (s ∷ ts) t all (inl same) =
    let p = all s (inl refl) in
    subst (λ x. (earliest_in e (s ∷ ts) ≤ x.deadline) × (0 < earliest_in e (s ∷ ts))) (sym same)
      (ground (
        arith,
        p,
        earliest_in-le s.deadline ts (λ x i. all x (inr i)) p,
        λ (q : 0 < e). earliest_in-le e ts (λ x i. all x (inr i)) q,
      ))
earliest_in-least e (s ∷ ts) t all (inr i) =
    earliest_in-least (if e == 0 || ltb s.deadline e then s.deadline else e) ts t
      (λ x j. all x (inr j)) i

earliest_in-attained :
    (e : ℕ) (ts : List Ticket)
    → (earliest_in e ts ≡ e) ⊎ ((t : Ticket) × IsIn ts t × (t.deadline ≡ earliest_in e ts))
unfolding earliest_in
earliest_in-attained e [] = inl refl
earliest_in-attained e (t ∷ ts) = elim (Bool-cases (e == 0 || ltb t.deadline e)) [
  | inl b ↦ rw b (elim (earliest_in-attained t.deadline ts) [
    | inl p ↦ inr (t, inl refl, sym p)
    | inr (s, i, p) ↦ inr (s, inr i, p)
  ])
  | inr b ↦
      rw b (elim (earliest_in-attained e ts) [ inl p ↦ inl p | inr (s, i, p) ↦ inr (s, inr i, p) ])
]

earliest_over-le :
    (e : ℕ) (m : Assoc (List Ticket))
    → ((t : Ticket) → IsWaiting m t → 0 < t.deadline)
    → 0 < e
    → (earliest_over e m ≤ e) × (0 < earliest_over e m)
unfolding earliest_over
earliest_over-le e [] all h = (omega arith, h)
earliest_over-le e ((user, ts) ∷ m) all h =
    let (less, positive) = earliest_in-le e ts (λ s i. all s (inl i)) h in
    let (least, still) = earliest_over-le (earliest_in e ts) m (λ s i. all s (inr i)) positive in
    (omega (arith, less, least), still)

earliest_over-least :
    (e : ℕ) (m : Assoc (List Ticket)) (t : Ticket)
    → ((s : Ticket) → IsWaiting m s → 0 < s.deadline)
    → IsWaiting m t
    → (earliest_over e m ≤ t.deadline) × (0 < earliest_over e m)
unfolding earliest_over
earliest_over-least e [] t all i = absurd i
earliest_over-least e ((user, ts) ∷ m) t all (inl i) =
    let (less, positive) = earliest_in-least e ts t (λ s j. all s (inl j)) i in
    let (least, still) = earliest_over-le (earliest_in e ts) m (λ s j. all s (inr j)) positive in
    (omega (arith, less, least), still)
earliest_over-least e ((user, ts) ∷ m) t all (inr i) =
    earliest_over-least (earliest_in e ts) m t (λ s j. all s (inr j)) i

earliest_over-attained :
    (e : ℕ) (m : Assoc (List Ticket))
    → (earliest_over e m ≡ e) ⊎ ((t : Ticket) × IsWaiting m t × (t.deadline ≡ earliest_over e m))
unfolding earliest_over
earliest_over-attained e [] = inl refl
earliest_over-attained e ((user, ts) ∷ m) = elim (earliest_over-attained (earliest_in e ts) m) [
  | inl p ↦ elim (earliest_in-attained e ts) [
    | inl q ↦ inl (p ∙ q)
    | inr (s, i, q) ↦ inr (s, inl i, q ∙ sym p)
  ]
  | inr (s, i, p) ↦ inr (s, inr i, p)
]

-- Where every waiting ticket has a deadline and some ticket waits, `NextDeadline` is the deadline
-- of a waiting ticket, and no waiting ticket has an earlier one.
pub next_deadline-IsLeast :
    (q : Queue) (t : Ticket)
    → ((s : Ticket) → IsWaiting q.waiting s → 0 < s.deadline)
    → IsWaiting q.waiting t
    → IsLeast q (next_deadline q)
unfolding next_deadline
next_deadline-IsLeast q t all w = elim (Bool-cases (earliest_over 0 q.waiting == 0)) [
  | inl e ↦ absurd (ground (arith, e, (earliest_over-least 0 q.waiting t all w).1))
  | inr e ↦ rw e (
    found (earliest_over-attained 0 q.waiting),
    λ s i. (earliest_over-least 0 q.waiting s all i).0,
  )
]
  where
    found :
        (earliest_over 0 q.waiting ≡ 0)
          ⊎ ((s : Ticket) × IsWaiting q.waiting s × (s.deadline ≡ earliest_over 0 q.waiting))
        → (s : Ticket) × IsWaiting q.waiting s × (s.deadline ≡ earliest_over 0 q.waiting)
    found (inl p) = absurd (omega (arith, p, (earliest_over-least 0 q.waiting t all w).1))
    found (inr x) = x
