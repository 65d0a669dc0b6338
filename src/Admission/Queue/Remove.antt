-- ===== src/Admission/Queue/Remove.antt =====
-- internal/admission/queue.go: `removeWaitingLocked` takes a ticket out of its user's queue.
use mathlib.Core.Path.{subst}
use llm2api.Prelude.{
  has, ℕ, suc, ◌+◌, ◌-◌, ◌<◌, ◌≡◌, refl, sym, ap, ◌∙◌, ◌⊎◌, inl, inr, true, false, none, some, List,
  [], ◌∷◌, ◌++◌, length, arith, ◌==◌, if◌then◌else◌, find, assign, erase, find-assign, find-erase,
  Bool-cases, get_elem?, Option-cases,
}
use llm2api.Admission.Types.{Ticket, Config}
use llm2api.Admission.Queue.{
  Queue, queue_of, is_empty, is_some, remove_at, index_of, position?, remove_user, remove_waiting,
}
use llm2api.Admission.Queue.Core.{
  Core, Core-remove, Core-listed, Core-drop, has_id, replaced, has-remove_at, length-remove_at,
}
use llm2api.Admission.Queue.Invariant.{Inv, queue_of-assign, queue_of-erase-assign}

-- Where `index_of` finds a ticket.
record IsSplit (id : ℕ) (ts : List Ticket) (j : ℕ) (t : Ticket) : Type 0 where
  before : List Ticket
  after : List Ticket
  whole : ts ≡ before ++ t ∷ after
  rest : remove_at ts j ≡ before ++ after
  same_id : t.id ≡ id

index_of-IsSplit :
    (id : ℕ) (ts : List Ticket) (k : ℕ) {i : ℕ} {t : Ticket}
    → index_of id ts k ≡ some (i, t)
    → (j : ℕ) × (i ≡ k + j) × IsSplit id ts j t
index_of-IsSplit id [] k e = cc
index_of-IsSplit id (x ∷ xs) k {i} {t} e = elim (Bool-cases (x.id == id)) [
  | inl hit ↦ (
    0,
    ground arith,
    record { before = []; after = xs; whole = ground arith; rest = refl; same_id = ground arith },
  )
  | inr miss ↦
      let (j, shifted, s) = index_of-IsSplit id xs (k + 1) {i = i} {t = t} (ground arith) in
      (
        suc j,
        omega arith,
        record {
          before = x ∷ s.before;
          after = s.after;
          whole = ap (◌∷◌ x) s.whole;
          rest = ap (◌∷◌ x) s.rest;
          same_id = s.same_id;
        },
      )
]

index_of_some :
    (id : ℕ) (ts : List Ticket) (k : ℕ) → has_id id ts ≡ true → is_some (index_of id ts k) ≡ true
index_of_some id [] k h = cc
index_of_some id (x ∷ xs) k h = ground (arith, index_of_some id xs (k + 1))

position?-lem :
    (u : ℕ) (us : List ℕ) (k : ℕ)
    → has u us ≡ true
    → (j : ℕ) × (position? u us k ≡ some (k + j)) × (get_elem? us j ≡ some u)
position?-lem u [] k h = cc
position?-lem u (x ∷ xs) k h = elim (Bool-cases (x == u)) [
  | inl e ↦ (0, ground arith, ground arith)
  | inr e ↦
      let (j, found, at) = position?-lem u xs (k + 1) (ground arith) in
      (suc j, ground (arith, found), at)
]

-- `removeUserLocked`, and a cursor that stays in range.
remove_user_lem :
    (q : Queue) (u j : ℕ)
    → get_elem? q.user_order j ≡ some u
    → position? u q.user_order 0 ≡ some j
    → (q.cursor ≡ 0) ⊎ (q.cursor < length q.user_order)
    → let r = remove_user q u in
      (r.user_order ≡ remove_at q.user_order j)
      × ((r.cursor ≡ 0) ⊎ (r.cursor < length (remove_at q.user_order j)))
      × (r.waiting ≡ q.waiting)
      × (r.waiting_ticket ≡ q.waiting_ticket)
      × (r.waiting_count ≡ q.waiting_count)
      × (r.active ≡ q.active)
      × (r.config ≡ q.config)
unfolding remove_user
remove_user_lem q u j at found c = ground (arith, length-remove_at q.user_order j u at)

-- The queue without the ticket, before the user is looked at.
abbrev without : Queue → ℕ → List Ticket → ℕ → Queue
without q u rest id = record q {
  waiting = assign u rest q.waiting;
  waiting_ticket = erase id q.waiting_ticket;
  waiting_count = q.waiting_count - 1;
}

abbrev finished : Queue → ℕ → List Ticket → ℕ → Queue
finished q u rest id =
    if is_empty rest
    then remove_user (record (without q u rest id) { waiting = erase u (assign u rest q.waiting) })
        u
    else without q u rest id

pub record IsRemoved (q r : Queue) (u : ℕ) (rest : List Ticket) (id : ℕ) : Type 0 where
  pub unfiled : r.waiting_ticket ≡ erase id q.waiting_ticket
  pub inv : Inv r
  pub fewer : r.waiting_count + 1 ≡ q.waiting_count
  pub queues : queue_of r.waiting ≡ replaced (queue_of q.waiting) u rest
  pub same_active : r.active ≡ q.active
  pub same_config : r.config ≡ q.config

module _ (q : Queue) (u id : ℕ) (v : Inv q) where
  apart_after :
      (i : ℕ) → is_some (find i (erase id q.waiting_ticket)) ≡ true → find i q.active ≡ none
  apart_after i e = ground (arith, find-erase id i q.waiting_ticket, v.apart i)

  finished-IsRemoved :
      (rest : List Ticket)
      → Core
          (replaced (queue_of q.waiting) u rest)
          (erase id q.waiting_ticket)
          q.user_order
          (q.waiting_count - 1)
      → 0 < q.waiting_count
      → has u q.user_order ≡ true
      → IsRemoved q (finished q u rest id) u rest id
  finished-IsRemoved (t ∷ ts) core some_wait here = record {
    inv = record {
      core = rw (queue_of-assign q.waiting u (t ∷ ts)) core;
      busy = λ x e. ground (arith, find-assign u x (t ∷ ts) q.waiting, v.busy x);
      cursor_in = v.cursor_in;
      capacity = omega (arith, v.capacity);
      apart = apart_after;
      within = v.within;
    };
    unfiled = refl;
    fewer = omega arith;
    queues = queue_of-assign q.waiting u (t ∷ ts);
    same_active = refl;
    same_config = refl;
  }
  finished-IsRemoved [] core some_wait here =
      let (j, found, at) = position?-lem u q.user_order 0 here in
      let gone = record (without q u [] id) { waiting = erase u (assign u [] q.waiting) } in
      let (order, cursor, waiting, ticket, count, active, config) =
        remove_user_lem gone u j at (ground (arith, found)) v.cursor_in in
      let same = queue_of-erase-assign q.waiting u [] in
      record {
        inv = record {
          core =
              rw (order, waiting, ticket, count)
                (subst
                  (λ f.
                    Core f (erase id q.waiting_ticket) (remove_at q.user_order j)
                      (q.waiting_count - 1))
                  (sym same) (Core-drop _ _ q.user_order _ j u core at (ground arith)));
          busy = λ x e. ground (
            arith,
            order,
            waiting,
            has-remove_at q.user_order j u x v.core.distinct at,
            find-erase u x (assign u [] q.waiting),
            find-assign u x [] q.waiting,
            v.busy x,
          );
          cursor_in = rw order cursor;
          capacity = omega (arith, v.capacity, count, ap (λ (c : Config). c.max_queued) config);
          apart = λ i e. ground (arith, ticket, active, apart_after i);
          within = ground (arith, active, config, v.within);
        };
        unfiled = ticket;
        fewer = omega (arith, count);
        queues = ap queue_of waiting ∙ same;
        same_active = active;
        same_config = config;
      }

found_at :
    (q : Queue) (u id : ℕ)
    → Inv q
    → find id q.waiting_ticket ≡ some u
    → (i : ℕ) × (t : Ticket) × (index_of id (queue_of q.waiting u) 0 ≡ some (i, t))
found_at q u id v filed = elim (Option-cases (index_of id (queue_of q.waiting u) 0)) [
  | inl e ↦
      let there = index_of_some id (queue_of q.waiting u) 0 (v.core.filed id u filed) in
      absurd (missing (ap is_some (sym e) ∙ there))
  | inr (it, e) ↦ (it.0, it.1, e)
]
  where
    missing : false ≡ true → ⊥
    missing h = cc

remove_waiting_found :
    (q : Queue) (u id j : ℕ) (t : Ticket) (rest : List Ticket)
    → index_of id (queue_of q.waiting u) 0 ≡ some (j, t)
    → remove_at (queue_of q.waiting u) j ≡ rest
    → remove_waiting q u id ≡ some (finished q u rest id, t)
unfolding remove_waiting
remove_waiting_found q u id j t rest e r = ground (arith, e, r)

-- A ticket that is filed as waiting is found and removed.
pub remove_waiting_lem :
    (q : Queue) (u id : ℕ)
    → Inv q
    → find id q.waiting_ticket ≡ some u
    → (r : Queue) × (t : Ticket) × (before : List Ticket) × (after : List Ticket) × (remove_waiting
          q u id
        ≡ some (r, t))
      × (t.id ≡ id)
      × (queue_of q.waiting u ≡ before ++ t ∷ after)
      × IsRemoved q r u (before ++ after) id
remove_waiting_lem q u id v filed =
    let (i, t, e) = found_at q u id v filed in
    let (j, same, s) = index_of-IsSplit id (queue_of q.waiting u) 0 {i = i} {t = t} e in
    let at : i ≡ j = omega arith in
    let (core, some_wait) =
      Core-remove (queue_of q.waiting) q.waiting_ticket q.user_order q.waiting_count u s.before t
        s.after v.core s.whole in
    let listed =
      Core-listed (queue_of q.waiting) q.waiting_ticket q.user_order q.waiting_count u s.before t
        s.after v.core s.whole in
    (
      finished q u (s.before ++ s.after) id,
      t,
      s.before,
      s.after,
      remove_waiting_found q u id j t (s.before ++ s.after) (rw at at e) s.rest,
      s.same_id,
      s.whole,
      finished-IsRemoved q u id v (s.before ++ s.after) (rw s.same_id at core) some_wait listed,
    )
