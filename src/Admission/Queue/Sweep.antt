-- ===== src/Admission/Queue/Sweep.antt =====
-- internal/admission/queue.go: `expireLocked` as a whole.
use llm2api.Prelude.{
  Distinct, has, ℕ, ◌+◌, ◌%◌, ◌<◌, ◌≡◌, refl, sym, ap, ◌∙◌, ◌⊎◌, inl, inr, true, not, ◌&&◌, List,
  [], ◌∷◌, length, arith, ◌==◌, if◌then◌else◌, Bool-cases, ==→≡,
}
use llm2api.Admission.Types.{Ticket, Config, Expiration}
use llm2api.Admission.Queue.{Queue, queue_of, is_empty, expire_users, expire, position, user_at}
use llm2api.Admission.Queue.Core.{Core, total}
use llm2api.Admission.Queue.Invariant.{Inv, nonempty}
use llm2api.Admission.Queue.Expire.{
  live, with_queue, all_elapsed, swept, Expires, Expires-refl, expire_users-IsSwept,
}

has_cong : (us : List ℕ) (u x : ℕ) → (u == x) ≡ true → has u us ≡ has x us
has_cong us u x e = ap (λ y. has y us) (==→≡ u x e)

empty_cong : (w : ℕ → List Ticket) (u x : ℕ) → (u == x) ≡ true → is_empty (w u) ≡ is_empty (w x)
empty_cong w u x e = ap (λ y. is_empty (w y)) (==→≡ u x e)

has-with_queue :
    (w : ℕ → List Ticket) (us : List ℕ) (x : ℕ)
    → has x (with_queue w us) ≡ (has x us && not (is_empty (w x)))
has-with_queue w [] x = refl
has-with_queue w (u ∷ us) x = ground (arith, has-with_queue w us x, empty_cong w x u)

Distinct-with_queue : (w : ℕ → List Ticket) (us : List ℕ) → Distinct us → Distinct (with_queue w us)
Distinct-with_queue w [] d = tt
Distinct-with_queue w (u ∷ us) (d, ds) =
    ground (arith, has-with_queue w us u, Distinct-with_queue w us ds)

total-with_queue : (w : ℕ → List Ticket) (us : List ℕ) → total w (with_queue w us) ≡ total w us
total-with_queue w [] = refl
total-with_queue w (u ∷ us) = ground (arith, total-with_queue w us, is_empty-zero (w u))
  where
    is_empty-zero : (ts : List Ticket) → is_empty ts ≡ true → length ts ≡ 0
    is_empty-zero [] h = refl
    is_empty-zero (t ∷ ts) h = cc

is_empty-nil {ℓ} : {A : Type ℓ} (xs : List A) → is_empty xs ≡ true → xs ≡ []
is_empty-nil [] h = refl
is_empty-nil (x ∷ xs) h = cc

Core-with_queue :
    (w : ℕ → List Ticket) (wt : List (ℕ × ℕ)) (order : List ℕ) (n : ℕ)
    → Core w wt order n
    → Core w wt (with_queue w order) n
Core-with_queue w wt order n v = record {
  distinct = Distinct-with_queue w order v.distinct;
  covers = λ u h. ground (arith, has-with_queue w order u, v.covers u, is_empty-nil (w u));
  counted = v.counted ∙ sym (total-with_queue w order);
  held = v.held;
  filed = v.filed;
}

position_in :
    (u : ℕ) (us : List ℕ) (i : ℕ) → (position u us i ≡ 0) ⊎ (position u us i < i + length us)
position_in u [] i = inl refl
position_in u (x ∷ xs) i = ground (arith, position_in u xs (i + 1))

pub record IsExpired (now : ℕ) (q r : Queue) (gone : List Expiration) : Type 0 where
  pub inv : Inv r
  pub queues : (u : ℕ) → queue_of r.waiting u ≡ live now (queue_of q.waiting u)
  pub order : r.user_order ≡ with_queue (queue_of r.waiting) q.user_order
  pub gone_all : gone ≡ all_elapsed now (queue_of q.waiting) q.user_order
  pub expires : Expires q r gone

idle_order : (q : Queue) → Inv q → q.waiting_count ≡ 0 → q.user_order ≡ []
idle_order q v z = go q.user_order refl
  where
    go : (order : List ℕ) → q.user_order ≡ order → q.user_order ≡ []
    go [] e = e
    go (u ∷ us) e =
        let (t, rest, head) = nonempty (queue_of q.waiting u) (v.busy u (rw e (ground arith))) in
        absurd (omega (arith, v.core.counted, ap (total (queue_of q.waiting)) e, ap length head))

idle-IsExpired : (q : Queue) (now : ℕ) → Inv q → q.waiting_count ≡ 0 → IsExpired now q q []
idle-IsExpired q now v z =
    let none_there = idle_order q v z in
    record {
      inv = v;
      queues = λ u. ground (arith, v.core.covers u, none_there);
      order = rw none_there;
      gone_all = rw none_there;
      expires = Expires-refl q;
    }

swept_all :
    (now : ℕ) (q : Queue) (u : ℕ)
    → Inv q
    → swept now (queue_of q.waiting) q.user_order u ≡ live now (queue_of q.waiting u)
swept_all now q u v = ground (arith, v.core.covers u)

abbrev swept_queue : ℕ → ℕ → Queue → Queue
swept_queue now anchor q =
    let (r, order, gone) = expire_users now q.user_order q in
    record r { user_order = order; cursor = position anchor order 0 }

module _ (now anchor : ℕ) (q : Queue) (v : Inv q) where
  swept_queue-IsExpired :
      IsExpired now q (swept_queue now anchor q) (expire_users now q.user_order q).2
  swept_queue-IsExpired =
      let s = expire_users-IsSwept now q.user_order q.user_order q v.core.distinct v.core in
      let r = (expire_users now q.user_order q).0 in
      let w = queue_of r.waiting in
      let left = (expire_users now q.user_order q).1 in
      record {
        inv = record {
          core =
              rw s.left_with
                (Core-with_queue w r.waiting_ticket q.user_order r.waiting_count s.core);
          busy = λ u h. ground (arith, s.left_with, has-with_queue w q.user_order u);
          cursor_in = omega (arith, position_in anchor left 0);
          capacity = omega (
            arith,
            v.capacity,
            s.expires.counted,
            ap (λ (c : Config). c.max_queued) s.expires.same_config,
          );
          apart =
              λ id e. ground (arith, s.expires.same_active, v.apart id (s.expires.forgets id e));
          within = ground (arith, s.expires.same_active, s.expires.same_config, v.within);
        };
        queues = λ u. ap (λ (f : ℕ → List Ticket). f u) s.queues ∙ swept_all now q u v;
        order = s.left_with;
        gone_all = s.gone_all;
        expires = record {
          counted = s.expires.counted;
          forgets = s.expires.forgets;
          filed = s.expires.filed;
          unfiled = s.expires.unfiled;
          same_active = s.expires.same_active;
          same_config = s.expires.same_config;
        };
      }

abbrev anchor_of : Queue → ℕ
anchor_of q =
    if is_empty q.user_order then 0 else user_at q.user_order (q.cursor % length q.user_order)

-- Expiry keeps exactly the tickets whose deadline has not come, in their order, and drops the users
-- that have none left.
pub expire-IsExpired :
    (q : Queue) (now : ℕ) → Inv q → IsExpired now q (expire q now).0 (expire q now).1
unfolding expire
expire-IsExpired q now v = elim (Bool-cases (q.waiting_count == 0)) [
  | inl idle ↦ rw idle (idle-IsExpired q now v (==→≡ _ _ idle))
  | inr some_wait ↦ rw some_wait (swept_queue-IsExpired now (anchor_of q) q v)
]
