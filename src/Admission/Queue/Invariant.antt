-- ===== src/Admission/Queue/Invariant.antt =====
-- internal/admission/queue.go: the well-formedness of a queue, and how the waiting map changes.
use mathlib.Core.Path.{fun_ext}
use llm2api.Prelude.{
  has, ℕ, zero, suc, ◌≤◌, ◌<◌, ◌≡◌, refl, ◌⊎◌, true, false, none, some, List, [], ◌∷◌, length,
  get_elem?, arith, Assoc, find, assign, erase, find-assign, find-erase,
}
use llm2api.Admission.Types.{Ticket}
use llm2api.Admission.Queue.{Queue, queue_of, is_empty, is_some}
use llm2api.Admission.Queue.Core.{Core, replaced}

pub record Inv (q : Queue) : Type 0 where
  pub core : Core (queue_of q.waiting) q.waiting_ticket q.user_order q.waiting_count
  pub busy : (u : ℕ) → has u q.user_order ≡ true → is_empty (queue_of q.waiting u) ≡ false
  pub cursor_in : (q.cursor ≡ 0) ⊎ (q.cursor < length q.user_order)
  pub capacity : q.waiting_count ≤ q.config.max_queued
  pub apart : (id : ℕ) → is_some (find id q.waiting_ticket) ≡ true → find id q.active ≡ none
  pub within : length q.active ≤ q.config.max_active

module _ (m : Assoc (List Ticket)) (u : ℕ) where
  pub queue_of-assign : (ts : List Ticket) → queue_of (assign u ts m) ≡ replaced (queue_of m) u ts
  queue_of-assign ts = fun_ext (λ x. ground (arith, find-assign u x ts m))

  pub queue_of-erase : queue_of (erase u m) ≡ replaced (queue_of m) u []
  queue_of-erase = fun_ext (λ x. ground (arith, find-erase u x m))

  pub queue_of-erase-assign :
      (ts : List Ticket) → queue_of (erase u (assign u ts m)) ≡ replaced (queue_of m) u []
  queue_of-erase-assign ts =
      fun_ext (λ x. ground (arith, find-erase u x (assign u ts m), find-assign u x ts m))

pub get_elem?-lt {ℓ} :
    {A : Type ℓ} (xs : List A) (i : ℕ) → i < length xs → (x : A) × (get_elem? xs i ≡ some x)
get_elem?-lt [] i h = absurd (omega arith)
get_elem?-lt (x ∷ xs) zero h = (x, refl)
get_elem?-lt (x ∷ xs) (suc i) h = get_elem?-lt xs i (omega arith)

pub nonempty {ℓ} :
    {A : Type ℓ} (xs : List A) → is_empty xs ≡ false → (x : A) × (r : List A) × (xs ≡ x ∷ r)
nonempty [] h = cc
nonempty (x ∷ xs) h = (x, xs, refl)
