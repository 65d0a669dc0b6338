-- ===== src/Admission/Queue/Take.antt =====
-- internal/admission/queue.go: `takeNextLocked` takes the head of the queue of the user at the
-- cursor.
use native.Mathlib.Nat.{mod-lt}
use llm2api.Prelude.{
  ℕ, zero, suc, ◌+◌, ◌-◌, ◌%◌, ◌<◌, ◌≡◌, refl, ◌⊎◌, inl, inr, true, none, some, List, [], ◌∷◌,
  length, get_elem?, arith, ◌==◌, if◌then◌else◌, find, assign, erase, find-assign, find-erase,
  Bool-cases,
}
use llm2api.Admission.Types.{Ticket}
use llm2api.Admission.Queue.{
  Queue, queue_of, is_empty, is_some, remove_at, take_at, scan, take_next,
}
use llm2api.Admission.Queue.Core.{
  Core, Core-remove, Core-drop, replaced, has-remove_at, has-get_elem?, length-remove_at, total,
}
use llm2api.Admission.Queue.Invariant.{
  Inv, queue_of-assign, queue_of-erase-assign, get_elem?-lt, nonempty,
}

mod_in :
    (order : List ℕ) (i : ℕ)
    → let c = if is_empty order then 0 else i % length order in (c ≡ 0) ⊎ (c < length order)
mod_in [] i = inl refl
mod_in (x ∷ xs) i = inr (mod-lt i (omega arith))

module _ (q : Queue) (index user : ℕ) (t : Ticket) (v : Inv q)
    (at : get_elem? q.user_order index ≡ some user) where
  removed :
      (rest : List Ticket)
      → queue_of q.waiting user ≡ t ∷ rest
      → Core
          (replaced (queue_of q.waiting) user rest)
          (erase t.id q.waiting_ticket)
          q.user_order
          (q.waiting_count - 1)
        × (0 < q.waiting_count)
  removed rest head =
      Core-remove (queue_of q.waiting) q.waiting_ticket q.user_order q.waiting_count user [] t rest
        v.core head

  apart_after :
      (id : ℕ) → is_some (find id (erase t.id q.waiting_ticket)) ≡ true → find id q.active ≡ none
  apart_after id e = ground (arith, find-erase t.id id q.waiting_ticket, v.apart id)

  -- The user at the cursor is served and the rest of the queue keeps its well-formedness.
  pub take_at-Inv :
      (rest : List Ticket) → queue_of q.waiting user ≡ t ∷ rest → Inv (take_at q index user t rest)
  unfolding take_at
  take_at-Inv [] head = record {
    core =
        rw (queue_of-erase-assign q.waiting user [])
          (Core-drop _ _ q.user_order _ index user (removed [] head).0 at (ground arith));
    busy = λ u e. ground (
      arith,
      has-remove_at q.user_order index user u v.core.distinct at,
      find-erase user u (assign user [] q.waiting),
      find-assign user u [] q.waiting,
      v.busy u,
    );
    cursor_in = mod_in (remove_at q.user_order index) index;
    capacity = omega (arith, v.capacity);
    apart = apart_after;
    within = v.within;
  }
  take_at-Inv (r ∷ rs) head = record {
    core = rw (queue_of-assign q.waiting user (r ∷ rs)) (removed (r ∷ rs) head).0;
    busy = λ u e. ground (arith, find-assign user u (r ∷ rs) q.waiting, v.busy u);
    cursor_in =
        inr (mod-lt (index + 1) (omega (arith, length-remove_at q.user_order index user at)));
    capacity = omega (arith, v.capacity);
    apart = apart_after;
    within = v.within;
  }

at_cursor :
    (q : Queue)
    → Inv q
    → 0 < length q.user_order
    → (user : ℕ) × (t : Ticket) × (rest : List Ticket) × (get_elem? q.user_order q.cursor
        ≡ some user)
      × (queue_of q.waiting user ≡ t ∷ rest)
      × ((q.cursor + 0) % length q.user_order ≡ q.cursor)
at_cursor q v h =
    let below : q.cursor < length q.user_order = omega (arith, v.cursor_in) in
    let (user, at) = get_elem?-lt q.user_order q.cursor below in
    let (t, rest, head) =
      nonempty (queue_of q.waiting user)
        (v.busy user (has-get_elem? q.user_order q.cursor user at)) in
    (user, t, rest, at, head, grind arith)

scan_first :
    (q : Queue) (left user : ℕ) (t : Ticket) (rest : List Ticket)
    → get_elem? q.user_order q.cursor ≡ some user
    → queue_of q.waiting user ≡ t ∷ rest
    → (q.cursor + 0) % length q.user_order ≡ q.cursor
    → 0 < left
    → scan q left 0 ≡ some (take_at q q.cursor user t rest, t)
unfolding scan
scan_first q zero user t rest at head first h = elim h [ ]
scan_first q (suc left) user t rest at head first h = ground (arith, head)

no_users : (q : Queue) → Inv q → length q.user_order ≡ 0 → q.waiting_count ≡ 0
no_users q v h = go q.user_order h v.core.counted
  where
    go :
        (order : List ℕ)
        → length order ≡ 0
        → q.waiting_count ≡ total (queue_of q.waiting) order
        → q.waiting_count ≡ 0
    go [] z e = e
    go (x ∷ xs) z e = absurd (omega arith)

-- A well-formed queue gives the first ticket of the user at the cursor, exactly when any waits.
pub take_next_lem :
    (q : Queue)
    → Inv q
    → ((q.waiting_count ≡ 0) × (take_next q ≡ none))
      ⊎ ((user : ℕ) × (t : Ticket) × (rest : List Ticket) × (0 < q.waiting_count)
          × (get_elem? q.user_order q.cursor ≡ some user)
          × (queue_of q.waiting user ≡ t ∷ rest)
          × (take_next q ≡ some (take_at q q.cursor user t rest, t)))
unfolding take_next
take_next_lem q v = elim (Bool-cases (q.waiting_count == 0)) [
  | inl e ↦ inl (ground arith, rw e)
  | inr e ↦
      let some_user : 0 < length q.user_order = ground (arith, no_users q v) in
      let (user, t, rest, at, head, first) = at_cursor q v some_user in
      inr (
        user,
        t,
        rest,
        ground arith,
        at,
        head,
        ground (arith, scan_first q (length q.user_order) user t rest at head first some_user),
      )
]
