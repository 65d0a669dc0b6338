-- ===== src/Admission/Queue.antt =====
-- internal/admission/queue.go: the bounded queue that rotates over the users.
-- The lock makes each call one step; `now` is the clock's reading. The number of waiting tickets is
-- positive where the source decrements it, in every well-formed queue, so that the truncated
-- subtraction is exact. The number of a user's active tickets is an integer, as in the source.
use llm2api.Prelude.{
  ℕ, zero, suc, ◌+◌, ◌-◌, ◌%◌, Bool, true, false, ◌&&◌, ◌||◌, Option, none, some, ℤ, pos, negsuc,
  List, [], ◌∷◌, ◌++◌, length, get_elem?, ltb, leb, ◌==◌, if◌then◌else◌, Assoc, find, assign, erase,
}
use llm2api.Admission.Types.{
  ErrorKind, invalid_request, queue_full, duplicate_ticket, Result, ok, err, ◌>>=◌, ConfigInput,
  Config, validate, Request, Ticket, Admission, Expiration, Cancellation, Dispatch,
}
pub mod Core
pub mod Filed
pub mod Invariant
pub mod Take
pub mod Fill
pub mod Expire
pub mod Sweep
pub mod Enqueue
pub mod Remove
pub mod Operations
pub mod Deadline

pub record Queue : Type 0 where
  pub config : Config
  pub waiting : Assoc (List Ticket)
  pub waiting_ticket : Assoc ℕ
  pub user_order : List ℕ
  pub cursor : ℕ
  pub waiting_count : ℕ
  pub active : Assoc Ticket
  pub active_by_user : Assoc ℤ

-- `has_clock` is false for a nil clock.
unfoldable pub new_queue : ConfigInput → Bool → Result Queue
new_queue input has_clock = do
  config ← validate input
  if has_clock
      then ok (record {
        config = config;
        waiting = [];
        waiting_ticket = [];
        user_order = [];
        cursor = 0;
        waiting_count = 0;
        active = [];
        active_by_user = [];
      })
      else err ErrorKind.invalid_configuration

abbrev pub or_empty {ℓ} : {A : Type ℓ} → Option (List A) → List A
or_empty none = []
or_empty (some xs) = xs

-- q.waiting[user], nil where there is no entry.
abbrev pub queue_of : Assoc (List Ticket) → ℕ → List Ticket
queue_of m user = or_empty (find user m)

abbrev pub is_empty {ℓ} : {A : Type ℓ} → List A → Bool
is_empty [] = true
is_empty (x ∷ xs) = false

abbrev pub is_some {ℓ} : {A : Type ℓ} → Option A → Bool
is_some none = false
is_some (some x) = true

-- The queue timeout: the maximum where none is asked for.
timeout_of : ℤ → ℕ → Result ℕ
timeout_of (negsuc n) most = err invalid_request
timeout_of (pos zero) most = ok most
timeout_of (pos (suc n)) most = if ltb most (suc n) then err invalid_request else ok (suc n)

abbrev pub push_ticket : Queue → Ticket → Queue
push_ticket q t =
    let queue = queue_of q.waiting t.user_id in
    record q {
      user_order = if is_empty queue then q.user_order ++ t.user_id ∷ [] else q.user_order;
      waiting = assign t.user_id (queue ++ t ∷ []) q.waiting;
      waiting_ticket = assign t.id t.user_id q.waiting_ticket;
      waiting_count = q.waiting_count + 1;
    }

unfoldable pub enqueue : Queue → Request → ℕ → Result (Queue × Ticket)
unfolding timeout_of
enqueue q r now =
    if r.id == 0 || r.user_id == 0
    then err invalid_request
    else if is_some (find r.id q.waiting_ticket)
    then err duplicate_ticket
    else if is_some (find r.id q.active)
    then err duplicate_ticket
    else if leb q.config.max_queued q.waiting_count
    then err queue_full
    else (do
      timeout ← timeout_of r.queue_timeout q.config.max_queue_wait
      let t : Ticket = record {
        id = r.id;
        user_id = r.user_id;
        enqueued_at = now;
        deadline = now + timeout;
      }
      ok (push_ticket q t, t))

-- append(xs[:i], xs[i+1:]...)
abbrev pub remove_at {ℓ} : {A : Type ℓ} → List A → ℕ → List A
remove_at [] i = []
remove_at (x ∷ xs) zero = xs
remove_at (x ∷ xs) (suc i) = x ∷ remove_at xs i

-- `takeNextLocked` once it has found the head of the user's queue.
unfoldable pub take_at : Queue → ℕ → ℕ → Ticket → List Ticket → Queue
take_at q index user t rest =
    let taken = record q {
      waiting_ticket = erase t.id q.waiting_ticket;
      waiting_count = q.waiting_count - 1;
    } in
    if is_empty rest
    then (let order = remove_at q.user_order index in
        record taken {
          waiting = erase user (assign user rest q.waiting);
          user_order = order;
          cursor = if is_empty order then 0 else index % length order;
        })
    else record taken {
      waiting = assign user rest q.waiting;
      cursor = (index + 1) % length q.user_order;
    }

-- The loop over the offsets, `left` rounds before its end. The index is in range.
scan : Queue → ℕ → ℕ → Option (Queue × Ticket)
scan q zero offset = none
scan q (suc left) offset =
    let index = (q.cursor + offset) % length q.user_order in
    let next = scan q left (offset + 1) in
    elim (get_elem? q.user_order index) [
      | none ↦ none
      | some user ↦ elim (queue_of q.waiting user) [
        | [] ↦ next
        | t ∷ rest ↦ some (take_at q index user t rest, t)
      ]
    ]

unfoldable pub take_next : Queue → Option (Queue × Ticket)
unfolding scan
take_next q =
    if q.waiting_count == 0 || length q.user_order == 0
    then none
    else scan q (length q.user_order) 0

-- The inner loop of `expireLocked` over one user's tickets: those kept, and those expired.
unfoldable pub expire_tickets : ℕ → List Ticket → Queue → List Ticket × Queue × List Expiration
expire_tickets now [] q = ([], q, [])
expire_tickets now (t ∷ ts) q =
    let gone = expire_tickets now ts (record q {
      waiting_ticket = erase t.id q.waiting_ticket;
      waiting_count = q.waiting_count - 1;
    }) in
    let stays = expire_tickets now ts q in
    if leb t.deadline now
    then (gone.0, gone.1, record { ticket = t; expired_at = now } ∷ gone.2)
    else (t ∷ stays.0, stays.1, stays.2)

-- The outer loop over the users: the queue, the users that stay, and the tickets expired.
unfoldable pub expire_users : ℕ → List ℕ → Queue → Queue × List ℕ × List Expiration
expire_users now [] q = (q, [], [])
expire_users now (user ∷ users) q =
    let (kept, q', expired) = expire_tickets now (queue_of q.waiting user) q in
    let emptied = is_empty kept in
    let q'' = record q' {
      waiting = if emptied then erase user q'.waiting else assign user kept q'.waiting;
    } in
    let (r, order, more) = expire_users now users q'' in
    (r, if emptied then order else user ∷ order, expired ++ more)

-- The first position of the user, 0 where there is none.
abbrev pub position : ℕ → List ℕ → ℕ → ℕ
position user [] i = 0
position user (u ∷ us) i = if u == user then i else position user us (i + 1)

abbrev pub user_at : List ℕ → ℕ → ℕ
user_at order i = elim (get_elem? order i) [ none ↦ 0 | some user ↦ user ]

unfoldable pub expire : Queue → ℕ → Queue × List Expiration
expire q now =
    if q.waiting_count == 0
    then (q, [])
    else (let anchor =
          if is_empty q.user_order
          then 0
          else user_at q.user_order (q.cursor % length q.user_order) in
        let (r, order, expired) = expire_users now q.user_order q in
        (record r { user_order = order; cursor = position anchor order 0 }, expired))

-- m[k] of a map of numbers, 0 where there is no entry.
abbrev number_of : Option ℤ → ℤ
number_of none = pos 0
number_of (some n) = n

abbrev increment : ℤ → ℤ
increment (pos n) = pos (n + 1)
increment (negsuc zero) = pos 0
increment (negsuc (suc n)) = negsuc n

abbrev decrement : ℤ → ℤ
decrement (pos zero) = negsuc 0
decrement (pos (suc n)) = pos n
decrement (negsuc n) = negsuc (suc n)

unfoldable pub admit : Queue → Ticket → Queue
admit q t = record q {
  active = assign t.id t q.active;
  active_by_user =
      assign t.user_id (increment (number_of (find t.user_id q.active_by_user))) q.active_by_user;
}

-- The admission loop of `Dispatch`, on fuel: each round fills one slot (`Dispatched`).
unfoldable pub fill : ℕ → Queue → ℕ → Queue × List Admission
fill zero q now = (q, [])
fill (suc fuel) q now = elim (ltb (length q.active) q.config.max_active) [
  | false ↦ (q, [])
  | true ↦ elim (take_next q) [
    | none ↦ (q, [])
    | some (q', t) ↦
        let (r, admitted) = fill fuel (admit q' t) now in
        (r, record { ticket = t; admitted_at = now } ∷ admitted)
  ]
]

unfoldable pub dispatch : Queue → ℕ → Queue × Dispatch
dispatch q now =
    let (q', expired) = expire q now in
    let (r, admitted) = fill q'.config.max_active q' now in
    (r, record { expired = expired; admitted = admitted })

abbrev is_zero : ℤ → Bool
is_zero (pos n) = n == 0
is_zero (negsuc n) = false

unfoldable pub decrement_active : Queue → ℕ → Queue
decrement_active q user =
    let n = decrement (number_of (find user q.active_by_user)) in
    let assigned = assign user n q.active_by_user in
    record q { active_by_user = if is_zero n then erase user assigned else assigned }

abbrev pub index_of : ℕ → List Ticket → ℕ → Option (ℕ × Ticket)
index_of id [] i = none
index_of id (t ∷ ts) i = if t.id == id then some (i, t) else index_of id ts (i + 1)

abbrev pub position? : ℕ → List ℕ → ℕ → Option ℕ
position? user [] i = none
position? user (u ∷ us) i = if u == user then some i else position? user us (i + 1)

pub remove_user : Queue → ℕ → Queue
remove_user q user = elim (position? user q.user_order 0) [
  | none ↦ q
  | some index ↦
      let order = remove_at q.user_order index in
      record q {
        user_order = order;
        cursor =
            if is_empty order
            then 0
            else if ltb index q.cursor
            then q.cursor - 1
            else if leb (length order) q.cursor
            then 0
            else q.cursor;
      }
]

unfoldable pub remove_waiting : Queue → ℕ → ℕ → Option (Queue × Ticket)
unfolding remove_user
remove_waiting q user id = elim (index_of id (queue_of q.waiting user) 0) [
  | none ↦ none
  | some (index, t) ↦
      let rest = remove_at (queue_of q.waiting user) index in
      let removed = record q {
        waiting = assign user rest q.waiting;
        waiting_ticket = erase id q.waiting_ticket;
        waiting_count = q.waiting_count - 1;
      } in
      some (
        if is_empty rest
            then remove_user (record removed { waiting = erase user removed.waiting }) user
            else removed,
        t,
      )
]

unfoldable pub cancel : Queue → ℕ → ℕ → Queue × Option Cancellation
unfolding decrement_active remove_waiting
cancel q id now = elim (find id q.active) [
  | some t ↦ (
    decrement_active (record q { active = erase id q.active }) t.user_id,
    some (record { ticket = t; canceled_at = now; was_active = true }),
  )
  | none ↦ elim (find id q.waiting_ticket) [
    | none ↦ (q, none)
    | some user ↦ elim (remove_waiting q user id) [
      | none ↦ (q, none)
      | some (q', t) ↦ (q', some (record { ticket = t; canceled_at = now; was_active = false }))
    ]
  ]
]

unfoldable pub release : Queue → ℕ → Queue × Bool
unfolding decrement_active
release q id = elim (find id q.active) [
  | none ↦ (q, false)
  | some t ↦ (decrement_active (record q { active = erase id q.active }) t.user_id, true)
]
