-- ===== src/Coordination/Leases/Refinement.antt =====
-- internal/coordination/lease_script.go: any sequence of the scripts on the keys of a lease's
-- dimensions against one map from members to the times until which they are held.
use llm2api.Prelude.{
  ℕ, suc, ◌+◌, ◌≤◌, ◌≡◌, refl, ap, ◌∙◌, inl, inr, Bool, true, List, [], ◌∷◌, map, All, length, ◌==◌,
  Bool-cases, arith,
}
use llm2api.Coordination.SortedSets.{SortedSets, Laws}
use llm2api.Coordination.Leases.{
  Reply, ok, corrupt, Key, retain_live_key, Checked, retry_after, decide_lease, acquire_lease,
  live_members, held, renew_lease, release_lease, cleanup_leases,
}
use llm2api.Coordination.Leases.Atomic.{AllFound, check_keys-AllFound, Positive, check_keys_total}
use llm2api.Coordination.Leases.Holders.{
  Call, acquires, renews, releases, cleans, Holders, take_effect, Lasts, limit_keys, at_times,
  run_call, Agrees, all_keys, decide-Agrees, renew-Agrees, kept, removed,
}

abbrev pub AllPositive : List ℕ → Type 0
AllPositive = All (λ l. 1 ≤ l)

-- The calls on the map, with the successes that were reported.
abbrev pub replay : List Call → List Bool → Holders → Holders
replay [] bs f = f
replay (c ∷ cs) [] f = f
replay (c ∷ cs) (b ∷ bs) f = replay cs bs (take_effect c b f)

module _ (S : SortedSets) where
  abbrev pub also : Bool → Reply (List Bool × List (Key S)) → Reply (List Bool × List (Key S))
  also b corrupt = corrupt
  also b (ok (bs, keys)) = ok (b ∷ bs, keys)

  -- Calls one after the other: their reported successes and the keys in the end.
  unfoldable pub run_calls : List ℕ → List Call → List (Key S) → Reply (List Bool × List (Key S))
  run_calls limits [] keys = ok ([], keys)
  run_calls limits (c ∷ cs) keys = elim (run_call S limits c keys) [
    | corrupt ↦ corrupt
    | ok (b, ks) ↦ also b (run_calls limits cs ks)
  ]

module _ (S : SortedSets) (v : Laws S) (limits : List ℕ) (positive : AllPositive limits) where
  limit_keys-Positive :
      (now ttl n : ℕ) (ls : List ℕ) (keys : List (Key S))
      → AllPositive ls
      → Positive S v now ttl n (limit_keys S ls keys)
  limit_keys-Positive now ttl n [] keys p = tt
  limit_keys-Positive now ttl n (l ∷ ls) [] p = tt
  limit_keys-Positive now ttl n (l ∷ ls) (k ∷ ks) p = (p.0, limit_keys-Positive now ttl n ls ks p.1)

  -- The call replies; there are as many keys as before, and they show its effect.
  abbrev Replies : Call → Holders → List (Key S) → Type 0
  Replies c f keys =
      (b : Bool) × (ks : List (Key S)) × (run_call S limits c keys ≡ ok (b, ks))
      × (length ks ≡ length keys)
      × Agrees S (take_effect c b f) ks

  length-changed :
      (now : ℕ) (change : S.Members → Key S) (keys : List (Key S))
      → length (map change (live_members S now (at_times S now keys))) ≡ length keys
  length-changed now change [] = refl
  length-changed now change (k ∷ ks) = ap suc (length-changed now change ks)

  length-renew_lease :
      (now ttl n : ℕ) (keys : List (Key S))
      → length (renew_lease S now ttl n (at_times S now keys)).1 ≡ length keys
  unfolding renew_lease
  length-renew_lease now ttl n keys =
      elim (Bool-cases (held S n (live_members S now (at_times S now keys)))) [
        | inl e ↦ rw e (length-changed now (λ z. retain_live_key S (S.add (now + ttl) n z)) keys)
        | inr e ↦ rw e (length-changed now (λ z. retain_live_key S (S.remove n z)) keys)
      ]

  length-checked :
      (now ttl n : ℕ) (ls : List ℕ) (keys : List (Key S)) (cs : List (Checked S))
      → AllFound S v now ttl n (limit_keys S ls (at_times S now keys)) cs
      → length keys ≡ length ls
      → length cs ≡ length keys
  length-checked now ttl n [] [] [] a h = refl
  length-checked now ttl n [] [] (c ∷ cs) a h = absurd a
  length-checked now ttl n [] (k ∷ ks) cs a h = absurd (omega (arith, h))
  length-checked now ttl n (l ∷ ls) [] cs a h = absurd (omega (arith, h))
  length-checked now ttl n (l ∷ ls) (k ∷ ks) [] a h = absurd a
  length-checked now ttl n (l ∷ ls) (k ∷ ks) (c ∷ cs) a h =
      ap suc (length-checked now ttl n ls ks cs a.1 (omega (arith, h)))

  length-decided :
      (change : Checked S → Key S) (cs : List (Checked S)) → length (map change cs) ≡ length cs
  length-decided change [] = refl
  length-decided change (c ∷ cs) = ap suc (length-decided change cs)

  length-decide_lease :
      (now ttl n : ℕ) (cs : List (Checked S))
      → length (decide_lease S now ttl n cs).keys ≡ length cs
  unfolding decide_lease
  length-decide_lease now ttl n cs = elim (Bool-cases (retry_after S cs == 0)) [
    | inl e ↦ rw e (length-decided _ cs)
    | inr e ↦ rw e (length-decided _ cs)
  ]

  run_call-Agrees :
      (c : Call) (f : Holders) (keys : List (Key S))
      → Lasts c
      → length keys ≡ length limits
      → Agrees S f keys
      → Replies c f keys
  unfolding acquire_lease release_lease cleanup_leases
  run_call-Agrees (acquires now ttl n) f keys t w h =
      let ls = limit_keys S limits (at_times S now keys) in
      let (cs, e) =
        check_keys_total S v now ttl n ls
          (limit_keys-Positive now ttl n limits (at_times S now keys) positive) in
      let found = check_keys-AllFound S v now ttl n ls cs e in
      (
        (decide_lease S now ttl n cs).granted,
        (decide_lease S now ttl n cs).keys,
        rw (run_call, e, acquire_lease) refl,
        length-decide_lease now ttl n cs ∙ length-checked now ttl n limits keys cs found w,
        decide-Agrees S v now ttl n f limits keys cs found h,
      )
  run_call-Agrees (renews now ttl n) f keys t w h =
      (_, _, refl, length-renew_lease now ttl n keys, renew-Agrees S v now ttl n f keys t h)
  run_call-Agrees (releases now n) f keys t w h = (
    true,
    _,
    refl,
    length-changed now (λ z. retain_live_key S (S.remove n z)) keys,
    all_keys S v now 0 n f (λ z. retain_live_key S (S.remove n z)) _ (removed S v now 0 n f) keys h,
  )
  run_call-Agrees (cleans now) f keys t w h = (
    true,
    _,
    refl,
    length-changed now (retain_live_key S) keys,
    all_keys S v now 0 0 f (retain_live_key S) _ (kept S v now 0 0 f) keys h,
  )

  -- For sorted sets with the documented laws, as many keys as limits, and positive limits and
  -- durations: any sequence of the scripts replies and leaves as many keys. The server drops each
  -- key at the time that the last script has set for it. If at first every key shows the leases that
  -- one map has, none of them longer than the key itself lasts, then so it is in the end, where the
  -- map has followed the calls by their reported successes alone: a lease that was granted or
  -- renewed is held until its duration is over, unless it is released or lost before, and the other
  -- leases lapse.
  pub run_calls-Agrees :
      (cs : List Call) (f : Holders) (keys : List (Key S))
      → All Lasts cs
      → length keys ≡ length limits
      → Agrees S f keys
      → (bs : List Bool) × (ks : List (Key S)) × (run_calls S limits cs keys ≡ ok (bs, ks))
        × (length bs ≡ length cs)
        × (length ks ≡ length limits)
        × Agrees S (replay cs bs f) ks
  unfolding run_calls
  run_calls-Agrees [] f keys t w h = ([], keys, refl, refl, w, h)
  run_calls-Agrees (c ∷ cs) f keys t w h =
      let (b, ks, e, same, a) = run_call-Agrees c f keys t.0 w h in
      let (bs, ks', e', l, w', a') = run_calls-Agrees cs (take_effect c b f) ks t.1 (same ∙ w) a in
      (b ∷ bs, ks', rw (run_calls, e, e') refl, ap suc l, w', a')
