-- ===== src/Coordination/Leases/Holders.antt =====
-- internal/coordination/lease_script.go: a call of one script, and what it makes of the map from
-- members to the times until which they hold their leases.
use mathlib.Core.Path.{subst}
use llm2api.Prelude.{
  ℕ, ◌+◌, ◌≤◌, ◌<◌, leb, leb→le, Option-cases, ◌≡◌, refl, sym, ap, ◌∙◌, inl, inr, Bool, true, false,
  not, Option, none, some, List, [], ◌∷◌, map, All, ◌==◌, if◌then◌else◌, Bool-cases, arith, ==_ne,
}
use llm2api.Coordination.SortedSets.{SortedSets, Laws, later_than}
use llm2api.Coordination.Leases.{
  Reply, ok, corrupt, Key, retain_live_key, at_time, Limited, Checked, retry_after, decide_lease,
  acquire_lease, live_members, held, renew_lease, release_lease, cleanup_leases,
}
use llm2api.Coordination.Leases.Atomic.{AllFound, retain-score}

-- A call of a script, at the server's time in milliseconds.
pub data Call : Type 0 where
  acquires renews : (now ttl member : ℕ) → Call
  releases : (now member : ℕ) → Call
  cleans : (now : ℕ) → Call

-- Who holds a lease, and until when.
abbrev pub Holders : Type 0
Holders = ℕ → Option ℕ

abbrev pub hold : ℕ → ℕ → Holders → Holders
hold until n f m = if n == m then some until else f m

abbrev pub drop : ℕ → Holders → Holders
drop n f m = if n == m then none else f m

abbrev pub lapse : ℕ → Holders → Holders
lapse now f m = later_than now (f m)

-- What a call does to the holders, by whether the script reports success.
abbrev pub take_effect : Call → Bool → Holders → Holders
take_effect (acquires now ttl n) true f = hold (now + ttl) n (lapse now f)
take_effect (acquires now ttl n) false f = lapse now f
take_effect (renews now ttl n) true f = hold (now + ttl) n (lapse now f)
take_effect (renews now ttl n) false f = drop n (lapse now f)
take_effect (releases now n) b f = drop n (lapse now f)
take_effect (cleans now) b f = lapse now f

-- The times that are granted are not zero.
abbrev pub Lasts : Call → Type 0
Lasts (acquires now ttl n) = 1 ≤ ttl
Lasts (renews now ttl n) = 1 ≤ ttl
Lasts (releases now n) = Unit {0}
Lasts (cleans now) = Unit {0}

module _ (S : SortedSets) where
  abbrev pub limit_keys : List ℕ → List (Key S) → List (Limited S)
  limit_keys [] keys = []
  limit_keys (l ∷ ls) [] = []
  limit_keys (l ∷ ls) (k ∷ ks) = record { key = k; limit = l } ∷ limit_keys ls ks

  abbrev pub at_times : ℕ → List (Key S) → List (Key S)
  at_times now = map (at_time S now)

  -- The reported success and the keys that a call leaves behind. The server has dropped the keys
  -- whose time has come.
  abbrev pub run_call : List ℕ → Call → List (Key S) → Reply (Bool × List (Key S))
  run_call limits (acquires now ttl n) keys =
      elim (acquire_lease S now ttl n (limit_keys limits (at_times now keys))) [
        | corrupt ↦ corrupt
        | ok a ↦ ok (a.granted, a.keys)
      ]
  run_call limits (renews now ttl n) keys =
      let (time, left) = renew_lease S now ttl n (at_times now keys) in ok (not (time == 0), left)
  run_call limits (releases now n) keys = ok (true, (release_lease S now n (at_times now keys)).1)
  run_call limits (cleans now) keys = ok (true, (cleanup_leases S now (at_times now keys)).2)

  -- A key holds what the map says, and the server does not drop it while a lease on it lasts.
  abbrev pub Shows : Holders → Key S → Type 0
  Shows f k =
      ((m : ℕ) → S.score m k.members ≡ f m)
      × ((m s : ℕ) → S.score m k.members ≡ some s → s < k.expires_at)

  -- Every key holds what the map says.
  abbrev pub Agrees : Holders → List (Key S) → Type 0
  Agrees f = All (Shows f)

module _ (S : SortedSets) (v : Laws S) (now ttl n : ℕ) (f : Holders) where
  abbrev Same : S.Members → Holders → Type 0
  Same z g = (m : ℕ) → S.score m z ≡ g m

  -- What a script sees of a key, and without its expired members.
  abbrev lasting : Key S → S.Members
  lasting k = S.expire_until now (at_time S now k).members

  retained :
      (z : S.Members) (m s : ℕ)
      → S.score m (retain_live_key S z).members ≡ some s
      → s < (retain_live_key S z).expires_at
  unfolding retain_live_key
  retained z m s h = elim (Option-cases (S.highest z)) [
    | inl e ↦ ground (arith, h, e, v.score-empty m)
    | inr (t, e) ↦ ground (arith, h, e, v.highest-le m s t z)
  ]

  shown : (z : S.Members) (g : Holders) → Same z g → Shows S g (retain_live_key S z)
  shown z g h = (λ m. retain-score S v now ttl n m z ∙ h m, retained z)

  module _ (k : Key S) (h : Shows S f k) where
    dropped :
        leb k.expires_at now ≡ true → at_time S now k ≡ record { members = S.empty; expires_at = 0 }
    unfolding at_time
    dropped e = rw (at_time, e) refl

    there : leb k.expires_at now ≡ false → at_time S now k ≡ k
    unfolding at_time
    there e = rw (at_time, e) refl

    -- A key that the server has dropped held expired members only.
    expired : Same (lasting k) (lapse now f)
    expired m = elim (Bool-cases (leb k.expires_at now)) [
      | inl e ↦
          ap (λ x. S.score m (S.expire_until now x.members)) (dropped e)
          ∙ v.score-expire m now S.empty
          ∙ ap (later_than now) (v.score-empty m)
          ∙ sym (gone (leb→le _ _ e) (f m) refl)
      | inr e ↦
          ap (λ x. S.score m (S.expire_until now x.members)) (there e)
          ∙ v.score-expire m now k.members
          ∙ ap (later_than now) (h.0 m)
    ]
      where
        gone : k.expires_at ≤ now → (o : Option ℕ) → f m ≡ o → later_than now o ≡ none
        gone i none e = refl
        gone i (some s) e = ground (arith, i, h.1 m s (h.0 m ∙ e))

    pub kept : Shows S (lapse now f) (retain_live_key S (lasting k))
    kept = shown _ _ expired

    added :
        Shows S
          (hold (now + ttl) n (lapse now f))
          (retain_live_key S (S.add (now + ttl) n (lasting k)))
    added = shown _ _ (λ m.
        v.score-add m n (now + ttl) _
        ∙ ap (λ o. if n == m then some (now + ttl) else o) (expired m))

    pub removed : Shows S (drop n (lapse now f)) (retain_live_key S (S.remove n (lasting k)))
    removed =
        shown _ _ (λ m. v.score-remove m n _ ∙ ap (λ o. if n == m then none else o) (expired m))

  -- A change of every key.
  pub all_keys :
      (change : S.Members → Key S) (g : Holders)
      → ((k : Key S) → Shows S f k → Shows S g (change (lasting k)))
      → (keys : List (Key S)) → Agrees S f keys
      → Agrees S g (map change (live_members S now (at_times S now keys)))
  all_keys change g each [] h = tt
  all_keys change g each (k ∷ ks) h = (each k h.0, all_keys change g each ks h.1)

  -- The same of the keys that the first loop of an acquisition has checked.
  all_checked :
      (change : S.Members → Key S) (g : Holders)
      → ((k : Key S) → Shows S f k → Shows S g (change (lasting k)))
      → (ls : List ℕ) (keys : List (Key S)) (cs : List (Checked S))
      → AllFound S v now ttl n (limit_keys S ls (at_times S now keys)) cs
      → Agrees S f keys
      → Agrees S g (map (λ c. change c.members) cs)
  all_checked change g each [] keys [] a h = tt
  all_checked change g each [] keys (c ∷ cs) a h = absurd a
  all_checked change g each (l ∷ ls) [] [] a h = tt
  all_checked change g each (l ∷ ls) [] (c ∷ cs) a h = absurd a
  all_checked change g each (l ∷ ls) (k ∷ ks) [] a h = absurd a
  all_checked change g each (l ∷ ls) (k ∷ ks) (c ∷ cs) a h = (
    subst (λ z. Shows S g (change z)) (sym a.0.0) (each k h.0),
    all_checked change g each ls ks cs a.1 h.1,
  )

  pub decide-Agrees :
      (ls : List ℕ) (keys : List (Key S)) (cs : List (Checked S))
      → AllFound S v now ttl n (limit_keys S ls (at_times S now keys)) cs
      → Agrees S f keys
      → Agrees S
          (take_effect (acquires now ttl n) (decide_lease S now ttl n cs).granted f)
          (decide_lease S now ttl n cs).keys
  unfolding decide_lease
  decide-Agrees ls keys cs a h = elim (Bool-cases (retry_after S cs == 0)) [
    | inl e ↦
        rw e (all_checked (λ z. retain_live_key S (S.add (now + ttl) n z)) _ added ls keys cs a h)
    | inr e ↦ rw e (all_checked (retain_live_key S) _ kept ls keys cs a h)
  ]

  pub renew-Agrees :
      (keys : List (Key S))
      → 1 ≤ ttl
      → Agrees S f keys
      → Agrees S
          (take_effect
            (renews now ttl n)
            (not ((renew_lease S now ttl n (at_times S now keys)).0 == 0))
            f)
          (renew_lease S now ttl n (at_times S now keys)).1
  unfolding renew_lease
  renew-Agrees keys t h = elim (Bool-cases (held S n (live_members S now (at_times S now keys)))) [
    | inl e ↦
        rw (e, ==_ne (now + ttl) 0 (λ z. omega (arith, z)))
          (all_keys (λ z. retain_live_key S (S.add (now + ttl) n z)) _ added keys h)
    | inr e ↦ rw e (all_keys (λ z. retain_live_key S (S.remove n z)) _ removed keys h)
  ]
