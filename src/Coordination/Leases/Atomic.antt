-- ===== src/Coordination/Leases/Atomic.antt =====
-- internal/coordination/lease_script.go: a lease is acquired on every key or on none.
use mathlib.Core.Path.{subst}
use llm2api.Prelude.{
  ℕ, ◌+◌, ◌-◌, max, ◌≤◌, ◌<◌, ◌≡◌, refl, sym, ap, ◌∙◌, inl, inr, ◌⊎◌, Bool, true, false, ◌&&◌, not,
  none, some, List, [], ◌∷◌, map, leb, ◌==◌, Bool-cases, Option-cases, arith, ==_refl,
}
use llm2api.Coordination.SortedSets.{SortedSets, Laws, is_some, later_than}
use llm2api.Coordination.Leases.{
  Reply, ok, corrupt, Key, retain_live_key, Limited, Checked, check_key, cons_checked, check_keys,
  retry_after, Acquired, decide_lease, acquire_lease,
}

module _ (S : SortedSets) (v : Laws S) (now ttl member : ℕ) where
  -- The member holds the key until the expiry, and the count is within the limit or as it was.
  abbrev pub Holds : Limited S → Key S → Type 0
  Holds l k =
      let live = S.expire_until now l.key.members in
      (S.score member k.members ≡ some (now + ttl))
      × ((S.card k.members ≤ l.limit)
          ⊎ ((is_some (S.score member live) ≡ true) × (S.card k.members ≡ S.card live)))

  -- No score has changed but those of expired members, which are gone.
  abbrev pub Kept : Limited S → Key S → Type 0
  Kept l k = (m : ℕ) → S.score m k.members ≡ later_than now (S.score m l.key.members)

  abbrev pub Each : (Limited S → Key S → Type 0) → List (Limited S) → List (Key S) → Type 0
  Each P [] [] = Unit {0}
  Each P [] (k ∷ ks) = ⊥
  Each P (l ∷ ls) [] = ⊥
  Each P (l ∷ ls) (k ∷ ks) = P l k × Each P ls ks

  -- What the first loop has found of a key.
  abbrev pub Found : Limited S → Checked S → Type 0
  Found l c =
      (c.members ≡ S.expire_until now l.key.members)
      × (c.wait ≡ 0 → is_some (S.score member c.members) ≡ false → S.card c.members < l.limit)

  abbrev pub AllFound : List (Limited S) → List (Checked S) → Type 0
  AllFound [] [] = Unit {0}
  AllFound [] (c ∷ cs) = ⊥
  AllFound (l ∷ ls) [] = ⊥
  AllFound (l ∷ ls) (c ∷ cs) = Found l c × AllFound ls cs

  ok-injective : (a b : Checked S) → ok a ≡ ok b → a ≡ b
  ok-injective a b h = ground arith

  corrupt≢ok : (c : Checked S) → corrupt ≡ ok c → ⊥
  corrupt≢ok c h = ground arith

  check_key-Found : (l : Limited S) (c : Checked S) → check_key S now member l ≡ ok c → Found l c
  unfolding check_key
  check_key-Found l c h =
      let live = S.expire_until now l.key.members in
      elim (Bool-cases (not (is_some (S.score member live)) && leb l.limit (S.card live))) [
        | inl e ↦ elim (Option-cases (S.nth_score (S.card live - l.limit) live)) [
          | inl n ↦ absurd (corrupt≢ok c (sym (same_corrupt e n) ∙ h))
          | inr (s, n) ↦
              subst (Found l) (ok-injective _ c (sym (same_wait e s n) ∙ h))
                (refl, λ w i. absurd (omega (arith, w)))
        ]
        | inr e ↦
            subst (Found l) (ok-injective _ c (sym (same_free e) ∙ h))
              (refl, λ w i. ground (arith, e, i))
      ]
    where
      blocked : Bool
      blocked =
          not (is_some (S.score member (S.expire_until now l.key.members)))
          && leb l.limit (S.card (S.expire_until now l.key.members))

      same_free :
          blocked ≡ false
          → check_key S now member l
            ≡ ok (record { members = S.expire_until now l.key.members; wait = 0 })
      same_free e = rw (e, check_key) refl

      same_corrupt :
          blocked ≡ true
          → S.nth_score
              (S.card (S.expire_until now l.key.members) - l.limit)
              (S.expire_until now l.key.members)
            ≡ none
          → check_key S now member l ≡ corrupt
      same_corrupt e n = rw (e, n, check_key) refl

      same_wait :
          blocked ≡ true
          → (s : ℕ)
          → S.nth_score
              (S.card (S.expire_until now l.key.members) - l.limit)
              (S.expire_until now l.key.members)
            ≡ some s
          → check_key S now member l
            ≡ ok (record { members = S.expire_until now l.key.members; wait = max 1 (s - now) })
      same_wait e s n = rw (e, n, check_key) refl

  pub check_keys-AllFound :
      (ls : List (Limited S)) (cs : List (Checked S))
      → check_keys S now member ls ≡ ok cs
      → AllFound ls cs
  unfolding check_keys
  check_keys-AllFound [] [] h = tt
  check_keys-AllFound [] (c ∷ cs) h = ground arith
  check_keys-AllFound (l ∷ ls) cs h =
      consed (check_key S now member l) (check_keys S now member ls) cs (check_key-Found l)
        (check_keys-AllFound ls) h
    where
      consed :
          (a : Reply (Checked S)) (r : Reply (List (Checked S))) (ds : List (Checked S))
          → ((c : Checked S) → a ≡ ok c → Found l c)
          → ((es : List (Checked S)) → r ≡ ok es → AllFound ls es)
          → cons_checked S a r ≡ ok ds
          → AllFound (l ∷ ls) ds
      consed corrupt r ds f g i = ground arith
      consed (ok c) corrupt ds f g i = ground arith
      consed (ok c) (ok es) [] f g i = ground arith
      consed (ok c) (ok es) (d ∷ ds) f g i = (
        subst (Found l) (ground arith) (f c refl),
        subst (AllFound ls) (ground arith) (g es refl),
      )

  -- Keeping a key alive leaves its scores as they are.
  pub retain-score : (m : ℕ) (z : S.Members) → S.score m (retain_live_key S z).members ≡ S.score m z
  unfolding retain_live_key
  retain-score m z = elim (Option-cases (S.highest z)) [
    | inl e ↦ rw (e, retain_live_key) (v.score-empty m ∙ sym (v.highest-empty m z e))
    | inr (s, e) ↦ rw (e, retain_live_key) refl
  ]

  retain-nonempty :
      (m s : ℕ) (z : S.Members) → S.score m z ≡ some s → (retain_live_key S z).members ≡ z
  unfolding retain_live_key
  retain-nonempty m s z h = elim (Option-cases (S.highest z)) [
    | inl e ↦ ground (arith, h, v.highest-empty m z e)
    | inr (t, e) ↦ rw (e, retain_live_key) refl
  ]

  added : (z : S.Members) → S.score member (S.add (now + ttl) member z) ≡ some (now + ttl)
  added z = ground (arith, v.score-add member member (now + ttl) z, ==_refl member)

  granted-Holds :
      (l : Limited S) (c : Checked S)
      → Found l c
      → c.wait ≡ 0
      → Holds l (retain_live_key S (S.add (now + ttl) member c.members))
  granted-Holds l c (live, room) w =
      subst
        (λ z.
          (S.score member z ≡ some (now + ttl))
          × ((S.card z ≤ l.limit)
              ⊎ ((is_some (S.score member (S.expire_until now l.key.members)) ≡ true)
                  × (S.card z ≡ S.card (S.expire_until now l.key.members)))))
        (sym (retain-nonempty member (now + ttl) _ (added c.members)))
        (
          added c.members,
          elim (Bool-cases (is_some (S.score member c.members))) [
            | inl e ↦ inr (
              ap (λ z. is_some (S.score member z)) (sym live) ∙ e,
              ground (arith, v.card-add (now + ttl) member c.members, e) ∙ ap S.card live,
            )
            | inr e ↦ inl (ground (arith, v.card-add (now + ttl) member c.members, e, room w e))
          ],
        )

  denied-Kept : (l : Limited S) (c : Checked S) → Found l c → Kept l (retain_live_key S c.members)
  denied-Kept l c (live, room) m =
      retain-score m c.members ∙ ap (S.score m) live ∙ v.score-expire m now l.key.members

  all_granted :
      (ls : List (Limited S)) (cs : List (Checked S))
      → AllFound ls cs
      → retry_after S cs ≡ 0
      → Each Holds ls (map (λ c. retain_live_key S (S.add (now + ttl) member c.members)) cs)
  unfolding retry_after
  all_granted [] [] f w = tt
  all_granted [] (c ∷ cs) f w = absurd f
  all_granted (l ∷ ls) [] f w = absurd f
  all_granted (l ∷ ls) (c ∷ cs) f w =
      (granted-Holds l c f.0 (omega (arith, w)), all_granted ls cs f.1 (omega (arith, w)))

  all-Kept :
      (ls : List (Limited S)) (cs : List (Checked S))
      → AllFound ls cs
      → Each Kept ls (map (λ c. retain_live_key S c.members) cs)
  all-Kept [] [] f = tt
  all-Kept [] (c ∷ cs) f = absurd f
  all-Kept (l ∷ ls) [] f = absurd f
  all-Kept (l ∷ ls) (c ∷ cs) f = (denied-Kept l c f.0, all-Kept ls cs f.1)

  -- Granted, every key holds the member; refused, there is a wait and no score has changed.
  abbrev pub AllOrNone : List (Limited S) → Acquired S → Type 0
  AllOrNone ls a =
      ((a.granted ≡ true) × (a.time ≡ now + ttl) × Each Holds ls a.keys)
      ⊎ ((a.granted ≡ false) × (1 ≤ a.time) × Each Kept ls a.keys)

  decide_lease-AllOrNone :
      (ls : List (Limited S)) (cs : List (Checked S))
      → AllFound ls cs
      → AllOrNone ls (decide_lease S now ttl member cs)
  unfolding decide_lease
  decide_lease-AllOrNone ls cs f = elim (Bool-cases (retry_after S cs == 0)) [
    | inl e ↦ rw e (inl (refl, refl, all_granted ls cs f (ground (arith, e))))
    | inr e ↦ rw e (inr (refl, ground (arith, e), all-Kept ls cs f))
  ]

  -- For sorted sets with the documented laws, where the script to acquire a lease replies, either
  -- the lease is granted and every key holds the member until now + ttl, within the key's limit unless the member held the key before and the
  -- count is as it was; or the lease is refused with a wait, and no score of any key has changed
  -- except that expired members are gone.
  pub acquire_lease-AllOrNone :
      (ls : List (Limited S)) (a : Acquired S)
      → acquire_lease S now ttl member ls ≡ ok a
      → AllOrNone ls a
  unfolding acquire_lease
  acquire_lease-AllOrNone ls a h = go (check_keys S now member ls) refl h
    where
      go :
          (r : Reply (List (Checked S)))
          → check_keys S now member ls ≡ r
          → (elim r [ corrupt ↦ corrupt | ok cs ↦ ok (decide_lease S now ttl member cs) ]) ≡ ok a
          → AllOrNone ls a
      go corrupt e i = ground arith
      go (ok cs) e i =
          let same : decide_lease S now ttl member cs ≡ a = ground arith in
          subst (AllOrNone ls) same (decide_lease-AllOrNone ls cs (check_keys-AllFound ls cs e))

  -- A positive limit leaves the script no corrupt reply.
  abbrev pub Positive : List (Limited S) → Type 0
  Positive [] = Unit {0}
  Positive (l ∷ ls) = (1 ≤ l.limit) × Positive ls

  check_key_total :
      (l : Limited S) → 1 ≤ l.limit → (c : Checked S) × (check_key S now member l ≡ ok c)
  unfolding check_key
  check_key_total l p =
      let live = S.expire_until now l.key.members in
      elim (Bool-cases (not (is_some (S.score member live)) && leb l.limit (S.card live))) [
        | inl e ↦
            let (s, n) = v.nth-lt (S.card live - l.limit) live (ground (arith, e)) in
            (record { members = live; wait = max 1 (s - now) }, rw (e, n, check_key) refl)
        | inr e ↦ (record { members = live; wait = 0 }, rw (e, check_key) refl)
      ]

  pub check_keys_total :
      (ls : List (Limited S))
      → Positive ls
      → (cs : List (Checked S)) × (check_keys S now member ls ≡ ok cs)
  unfolding check_keys
  check_keys_total [] p = ([], refl)
  check_keys_total (l ∷ ls) p =
      let (c, e) = check_key_total l p.0 in
      let (cs, f) = check_keys_total ls p.1 in (c ∷ cs, rw (e, f) refl)

  -- For sorted sets with the documented laws and positive limits the script to acquire a lease replies.
  pub acquire_lease_total :
      (ls : List (Limited S))
      → Positive ls
      → (a : Acquired S) × (acquire_lease S now ttl member ls ≡ ok a)
  unfolding acquire_lease
  acquire_lease_total ls p =
      let (cs, e) = check_keys_total ls p in
      (decide_lease S now ttl member cs, rw (e, acquire_lease) refl)
