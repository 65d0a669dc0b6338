-- ===== src/Coordination/Leases.antt =====
-- internal/coordination/lease_script.go: the four scripts over the keys of a lease's dimensions.
-- A script is one step of the server; `now` is its clock in milliseconds. Its keys are those that the
-- server has at that time (`at_time`). A corrupt reply leaves
-- the keys without their expired members, which no script counts.
use llm2api.Prelude.{
  ℕ, zero, suc, ◌+◌, ◌-◌, max, Bool, true, false, ◌&&◌, not, Option, none, some, List, [], ◌∷◌, map,
  leb, ◌==◌, if◌then◌else◌,
}
use llm2api.Coordination.SortedSets.{SortedSets, is_some}
pub mod Atomic
pub mod Holders
pub mod Refinement

pub data Reply {ℓ} (A : Type ℓ) : Type ℓ where
  ok : A → Reply A
  corrupt : Reply A

abbrev pub lease_key_grace_milliseconds : ℕ
lease_key_grace_milliseconds = 1000

module _ (S : SortedSets) where
  -- The set under a key, and the time at which the server drops the key.
  pub record Key : Type 0 where
    pub members : S.Members
    pub expires_at : ℕ

  unfoldable pub retain_live_key : S.Members → Key
  retain_live_key z = elim (S.highest z) [
    | none ↦ record { members = S.empty; expires_at = 0 }
    | some s ↦ record { members = z; expires_at = s + lease_key_grace_milliseconds }
  ]

  -- What the server has of a key at a time: nothing once the key's own time has come.
  unfoldable pub at_time : ℕ → Key → Key
  at_time now k = if leb k.expires_at now then record { members = S.empty; expires_at = 0 } else k

  -- A key with its limit.
  pub record Limited : Type 0 where
    pub key : Key
    pub limit : ℕ

  -- What the first loop finds: the set without expired members, and the wait, 0 for none.
  pub record Checked : Type 0 where
    pub members : S.Members
    pub wait : ℕ

  unfoldable pub check_key : ℕ → ℕ → Limited → Reply Checked
  check_key now member l =
      let live = S.expire_until now l.key.members in
      let count = S.card live in
      if not (is_some (S.score member live)) && leb l.limit count
      then elim (S.nth_score (count - l.limit) live) [
        | none ↦ corrupt
        | some s ↦ ok (record { members = live; wait = max 1 (s - now) })
      ]
      else ok (record { members = live; wait = 0 })

  abbrev pub cons_checked : Reply Checked → Reply (List Checked) → Reply (List Checked)
  cons_checked corrupt r = corrupt
  cons_checked (ok c) corrupt = corrupt
  cons_checked (ok c) (ok cs) = ok (c ∷ cs)

  unfoldable pub check_keys : ℕ → ℕ → List Limited → Reply (List Checked)
  check_keys now member [] = ok []
  check_keys now member (l ∷ ls) = cons_checked (check_key now member l) (check_keys now member ls)

  -- The longest wait.
  unfoldable pub retry_after : List Checked → ℕ
  retry_after [] = 0
  retry_after (c ∷ cs) = max c.wait (retry_after cs)

  -- granted, the expiry or the wait, the counts, and the keys left behind.
  pub record Acquired : Type 0 where
    pub granted : Bool
    pub time : ℕ
    pub counts : List ℕ
    pub keys : List Key

  unfoldable pub count_with : ℕ → Checked → ℕ
  count_with member c =
      if is_some (S.score member c.members) then S.card c.members else S.card c.members + 1

  unfoldable pub decide_lease : ℕ → ℕ → ℕ → List Checked → Acquired
  decide_lease now ttl member cs =
      if retry_after cs == 0
      then record {
        granted = true;
        time = now + ttl;
        counts = map (count_with member) cs;
        keys = map (λ c. retain_live_key (S.add (now + ttl) member c.members)) cs;
      }
      else record {
        granted = false;
        time = retry_after cs;
        counts = map (λ c. S.card c.members) cs;
        keys = map (λ c. retain_live_key c.members) cs;
      }

  unfoldable pub acquire_lease : ℕ → ℕ → ℕ → List Limited → Reply Acquired
  acquire_lease now ttl member ls = elim (check_keys now member ls) [
    | corrupt ↦ corrupt
    | ok cs ↦ ok (decide_lease now ttl member cs)
  ]

  abbrev pub live_members : ℕ → List Key → List S.Members
  live_members now = map (λ k. S.expire_until now k.members)

  unfoldable pub held : ℕ → List S.Members → Bool
  held member [] = true
  held member (z ∷ zs) = is_some (S.score member z) && held member zs

  -- The new expiry, 0 for a lease that is lost, and the keys.
  unfoldable pub renew_lease : ℕ → ℕ → ℕ → List Key → ℕ × List Key
  renew_lease now ttl member keys =
      let live = live_members now keys in
      if held member live
      then (now + ttl, map (λ z. retain_live_key (S.add (now + ttl) member z)) live)
      else (0, map (λ z. retain_live_key (S.remove member z)) live)

  unfoldable pub removed_count : ℕ → List S.Members → ℕ
  removed_count member [] = 0
  removed_count member (z ∷ zs) =
      (if is_some (S.score member z) then 1 else 0) + removed_count member zs

  unfoldable pub release_lease : ℕ → ℕ → List Key → ℕ × List Key
  release_lease now member keys =
      let live = live_members now keys in
      (removed_count member live, map (λ z. retain_live_key (S.remove member z)) live)

  unfoldable pub cleanup_removed : ℕ → List Key → ℕ
  cleanup_removed now [] = 0
  cleanup_removed now (k ∷ ks) =
      (S.card k.members - S.card (S.expire_until now k.members)) + cleanup_removed now ks

  unfoldable pub cleanup_leases : ℕ → List Key → ℕ × List ℕ × List Key
  cleanup_leases now keys =
      let live = live_members now keys in
      (cleanup_removed now keys, map S.card live, map retain_live_key live)
