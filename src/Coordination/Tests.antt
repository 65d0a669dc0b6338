-- ===== src/Coordination/Tests.antt =====
-- The lease scripts over sorted sets that are lists of members with their scores.
use llm2api.Prelude.{
  ℕ, zero, suc, ◌+◌, ◌≤◌, ◌<◌, Option-cases, inl, inr, ◌≡◌, refl, Bool, false, ◌==◌, Option, none,
  some, List, [], ◌∷◌, max, length, get_elem?, Assoc, find, assign, erase, find-assign, find-erase,
  ltb, if◌then◌else◌, arith,
}
use llm2api.Coordination.SortedSets.{SortedSets, Laws, is_some, later_than}
use llm2api.Coordination.Leases.{
  ok, Key, Limited, Acquired, acquire_lease, check_keys, check_key, decide_lease, retry_after,
  retain_live_key,
}
use llm2api.Coordination.Leases.Holders.{Call, Holders, Agrees}
use llm2api.Coordination.Leases.Refinement.{run_calls, replay, run_calls-Agrees}
use llm2api.Coordination.Leases.Atomic.{
  AllOrNone, Positive, acquire_lease-AllOrNone, acquire_lease_total,
}

abbrev expire_members : ℕ → Assoc ℕ → Assoc ℕ
expire_members now [] = []
expire_members now ((m, s) ∷ z) =
    if ltb now s then (m, s) ∷ expire_members now z else erase m (expire_members now z)

abbrev insert : ℕ → List ℕ → List ℕ
insert s [] = s ∷ []
insert s (t ∷ ts) = if ltb s t then s ∷ t ∷ ts else t ∷ insert s ts

abbrev scores : Assoc ℕ → List ℕ
scores [] = []
scores ((m, s) ∷ z) = insert s (scores z)

abbrev highest_of : Assoc ℕ → Option ℕ
highest_of [] = none
highest_of ((m, s) ∷ z) = elim (highest_of z) [ none ↦ some s | some t ↦ some (max s t) ]

abbrev lists : SortedSets
lists = record {
  Members = Assoc ℕ;
  empty = [];
  expire_until = expire_members;
  score = find;
  card = length;
  nth_score = λ i z. get_elem? (scores z) i;
  highest = highest_of;
  add = λ s m z. assign m s z;
  remove = erase;
}

find-expire_members :
    (m now : ℕ) (z : Assoc ℕ) → find m (expire_members now z) ≡ later_than now (find m z)
find-expire_members m now [] = refl
find-expire_members m now ((n, s) ∷ z) =
    ground (arith, find-expire_members m now z, find-erase n m (expire_members now z))

length-assign_if :
    (s n : ℕ) (z : Assoc ℕ)
    → length (assign n s z) ≡ (if is_some (find n z) then length z else length z + 1)
unfolding assign
length-assign_if s n [] = refl
length-assign_if s n ((m, t) ∷ z) = ground (arith, length-assign_if s n z)

length-insert : (s : ℕ) (ts : List ℕ) → length (insert s ts) ≡ length ts + 1
length-insert s [] = refl
length-insert s (t ∷ ts) = ground (arith, length-insert s ts)

length-scores : (z : Assoc ℕ) → length (scores z) ≡ length z
length-scores [] = refl
length-scores ((m, s) ∷ z) = omega (arith, length-insert s (scores z), length-scores z)

get_elem?-lt : (i : ℕ) (ts : List ℕ) → i < length ts → (s : ℕ) × (get_elem? ts i ≡ some s)
get_elem?-lt i [] h = absurd (omega arith)
get_elem?-lt zero (t ∷ ts) h = (t, refl)
get_elem?-lt (suc i) (t ∷ ts) h = get_elem?-lt i ts (omega arith)

highest_of-empty : (m : ℕ) (z : Assoc ℕ) → highest_of z ≡ none → find m z ≡ none
highest_of-empty m [] h = refl
highest_of-empty m ((n, s) ∷ z) h = ground arith

highest_of-le : (m s t : ℕ) (z : Assoc ℕ) → find m z ≡ some s → highest_of z ≡ some t → s ≤ t
highest_of-le m s t [] h e = ground arith
highest_of-le m s t ((n, u) ∷ z) h e = elim (Option-cases (highest_of z)) [
  | inl i ↦ ground (arith, h, e, i, highest_of-empty m z i)
  | inr (w, i) ↦ ground (arith, h, e, i, highest_of-le m s w z)
]

lists-Laws : Laws lists
lists-Laws = record {
  score-expire = λ m now z. find-expire_members m now z;
  score-add = λ m n s z. find-assign n m s z;
  score-remove = λ m n z. find-erase n m z;
  card-add = length-assign_if;
  nth-lt = λ i z h. get_elem?-lt i (scores z) (omega (arith, length-scores z));
  highest-le = highest_of-le;
  highest-empty = highest_of-empty;
  score-empty = λ m. refl;
}

-- Member 1 holds the only lease of the first key until 150; member 2 asks at 100.
abbrev limited : List (Limited lists)
limited =
    record { key = record { members = (1, 150) ∷ []; expires_at = 1150 }; limit = 1 }
    ∷ record { key = record { members = []; expires_at = 0 }; limit = 5 }
    ∷ []

abbrev refusal : Acquired lists
refusal = record {
  granted = false;
  time = 50;
  counts = 1 ∷ 0 ∷ [];
  keys =
      record { members = (1, 150) ∷ []; expires_at = 1150 }
      ∷ record { members = []; expires_at = 0 }
      ∷ [];
}

refused : acquire_lease lists 100 30 2 limited ≡ ok refusal
unfolding acquire_lease check_keys check_key decide_lease retry_after retain_live_key assign erase
refused = refl

acquire_lease-AllOrNone_example : AllOrNone lists lists-Laws 100 30 2 limited refusal
acquire_lease-AllOrNone_example =
    acquire_lease-AllOrNone lists lists-Laws 100 30 2 limited refusal refused

positive : Positive lists lists-Laws 100 30 2 limited
positive = (omega arith, (omega arith, tt))

acquire_lease_total_example : (a : Acquired lists) × (acquire_lease lists 100 30 2 limited ≡ ok a)
acquire_lease_total_example = acquire_lease_total lists lists-Laws 100 30 2 limited positive

-- Member 2 is refused, member 1 renews and releases, and member 2 is granted the lease.
abbrev calls : List Call
calls =
    Call.acquires 100 30 2
    ∷ Call.renews 110 30 1
    ∷ Call.releases 120 1
    ∷ Call.acquires 125 30 2
    ∷ []

abbrev keys : List (Key lists)
keys = record { members = (1, 150) ∷ []; expires_at = 1150 } ∷ []

abbrev holders : Holders
holders m = if 1 == m then some 150 else none

shows_first : (m s : ℕ) → find m ((1, 150) ∷ []) ≡ some s → s < 1150
shows_first m s h = ground (arith, h)

run_calls-Agrees_example :
    (bs : List Bool) × (ks : List (Key lists)) × (run_calls lists (1 ∷ []) calls keys ≡ ok (bs, ks))
    × (length bs ≡ length calls)
    × (length ks ≡ 1)
    × Agrees lists (replay calls bs holders) ks
run_calls-Agrees_example =
    run_calls-Agrees lists lists-Laws (1 ∷ []) (omega arith, tt) calls holders keys
      (omega arith, (omega arith, (tt, (omega arith, tt)))) refl ((λ m. refl, shows_first), tt)
