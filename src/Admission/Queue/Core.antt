-- ===== src/Admission/Queue/Core.antt =====
-- internal/admission/queue.go: what the maps, the order of users and the counter of a queue have to
-- do with one another, over the waiting map read as a function.
use llm2api.Prelude.{
  has, Distinct, ℕ, zero, suc, ◌+◌, ◌-◌, ◌<◌, ◌≡◌, refl, sym, ap, ◌∙◌, ◌≢◌, inl, inr, Bool, true,
  false, some, List, [], ◌∷◌, ◌++◌, length, length-append, get_elem?, arith, ◌==◌, if◌then◌else◌,
  Assoc, find, erase, find-erase, Bool-cases, ==→≡, ==→≢,
}
use llm2api.Admission.Types.{Ticket}
use llm2api.Admission.Queue.{remove_at}

abbrev pub has_id : ℕ → List Ticket → Bool
has_id id [] = false
has_id id (t ∷ ts) = if id == t.id then true else has_id id ts

abbrev pub total : (ℕ → List Ticket) → List ℕ → ℕ
total w [] = 0
total w (u ∷ us) = length (w u) + total w us

-- The tickets of one user: each names the user and is filed under its ID, which no later one has.
abbrev pub Held : Assoc ℕ → ℕ → List Ticket → Type 0
Held wt u [] = Unit {0}
Held wt u (t ∷ ts) =
    (t.user_id ≡ u) × (find t.id wt ≡ some u) × (has_id t.id ts ≡ false) × Held wt u ts

pub record Core (w : ℕ → List Ticket) (wt : Assoc ℕ) (order : List ℕ) (n : ℕ) : Type 0 where
  pub distinct : Distinct order
  pub covers : (u : ℕ) → has u order ≡ false → w u ≡ []
  pub counted : n ≡ total w order
  pub held : (u : ℕ) → Held wt u (w u)
  pub filed : (id u : ℕ) → find id wt ≡ some u → has_id id (w u) ≡ true

pub has_id-append :
    (id : ℕ) (xs ys : List Ticket)
    → has_id id (xs ++ ys) ≡ (if has_id id xs then true else has_id id ys)
has_id-append id [] ys = refl
has_id-append id (x ∷ xs) ys = ground (arith, has_id-append id xs ys)

Held-erase_absent :
    (wt : Assoc ℕ) (u id : ℕ) (ts : List Ticket)
    → has_id id ts ≡ false
    → Held wt u ts
    → Held (erase id wt) u ts
Held-erase_absent wt u id [] f h = tt
Held-erase_absent wt u id (t ∷ ts) f (a, b, c, h) =
    (a, ground (arith, find-erase id t.id wt), c, Held-erase_absent wt u id ts (ground arith) h)

-- A user's tickets without one of them.
Held-remove_own :
    (wt : Assoc ℕ) (u : ℕ) (pre : List Ticket) (t : Ticket) (ts : List Ticket)
    → Held wt u (pre ++ t ∷ ts)
    → Held (erase t.id wt) u (pre ++ ts)
      × (find t.id wt ≡ some u)
      × (has_id t.id (pre ++ ts) ≡ false)
Held-remove_own wt u [] t ts (a, b, c, h) = (Held-erase_absent wt u t.id ts c h, b, c)
Held-remove_own wt u (p ∷ ps) t ts (a, b, c, h) =
    let (held, found, absent) = Held-remove_own wt u ps t ts h in
    (
      (
        a,
        ground (arith, find-erase t.id p.id wt, has_id-append p.id ps (t ∷ ts)),
        ground (arith, has_id-append p.id ps (t ∷ ts), has_id-append p.id ps ts),
        held,
      ),
      found,
      ground (arith, has_id-append p.id ps (t ∷ ts)),
    )

Held-remove_other :
    (wt : Assoc ℕ) (u v id : ℕ) (ts : List Ticket)
    → u ≢ v
    → find id wt ≡ some u
    → Held wt v ts
    → Held (erase id wt) v ts
Held-remove_other wt u v id [] d f h = tt
Held-remove_other wt u v id (t ∷ ts) d f (a, b, c, h) =
    (a, ground (arith, find-erase id t.id wt), c, Held-remove_other wt u v id ts d f h)

-- `w` with another list for one user.
abbrev pub replaced : (ℕ → List Ticket) → ℕ → List Ticket → ℕ → List Ticket
replaced w u ts v = if u == v then ts else w v

pub total-replaced_out :
    (w : ℕ → List Ticket) (u : ℕ) (ts : List Ticket) (order : List ℕ)
    → has u order ≡ false
    → total (replaced w u ts) order ≡ total w order
total-replaced_out w u ts [] h = refl
total-replaced_out w u ts (v ∷ vs) h = ground (arith, total-replaced_out w u ts vs)

pub total-replaced :
    (w : ℕ → List Ticket) (u : ℕ) (ts : List Ticket) (order : List ℕ)
    → Distinct order
    → has u order ≡ true
    → total (replaced w u ts) order + length (w u) ≡ total w order + length ts
total-replaced w u ts [] d h = cc
total-replaced w u ts (v ∷ vs) (d, ds) h =
    ground (arith, total-replaced w u ts vs ds, total-replaced_out w u ts vs)

-- Taking one ticket out of one user's list, wherever it stands.
module _ (w : ℕ → List Ticket) (wt : Assoc ℕ) (order : List ℕ) (n u : ℕ) (pre : List Ticket)
    (t : Ticket) (ts : List Ticket) (v : Core w wt order n) (here : w u ≡ pre ++ t ∷ ts) where
  own :
      Held (erase t.id wt) u (pre ++ ts)
      × (find t.id wt ≡ some u)
      × (has_id t.id (pre ++ ts) ≡ false)
  own = Held-remove_own wt u pre t ts (rw here at (v.held u))

  pub Core-filed : find t.id wt ≡ some u
  Core-filed = own.1

  pub Core-listed : has u order ≡ true
  Core-listed = elim (Bool-cases (has u order)) [
    | inl e ↦ e
    | inr e ↦
        absurd (omega (arith, ap length (sym here ∙ v.covers u e), length-append pre (t ∷ ts)))
  ]

  removed-Held : (x : ℕ) → Held (erase t.id wt) x (replaced w u (pre ++ ts) x)
  removed-Held x = elim (Bool-cases (u == x)) [
    | inl e ↦ rw (e, ← ==→≡ u x e) own.0
    | inr e ↦ rw e (Held-remove_other wt u x t.id (w x) (==→≢ u x e) own.1 (v.held x))
  ]

  removed_filed :
      (id x : ℕ) → find id (erase t.id wt) ≡ some x → has_id id (replaced w u (pre ++ ts) x) ≡ true
  removed_filed id x f = ground (
    arith,
    find-erase t.id id wt,
    v.filed id x,
    ap (has_id id) here,
    has_id-append id pre (t ∷ ts),
    has_id-append id pre ts,
  )

  pub Core-remove : Core (replaced w u (pre ++ ts)) (erase t.id wt) order (n - 1) × (0 < n)
  Core-remove =
      let sum = total-replaced w u (pre ++ ts) order v.distinct Core-listed in
      let before = ap length here ∙ length-append pre (t ∷ ts) in
      let after = length-append pre ts in
      (
        record {
          distinct = v.distinct;
          covers = λ x e. ground (arith, Core-listed, v.covers x e);
          counted = omega (arith, sum, before, after, v.counted);
          held = removed-Held;
          filed = removed_filed;
        },
        omega (arith, sum, before, after, v.counted),
      )

pub has-get_elem? : (order : List ℕ) (j u : ℕ) → get_elem? order j ≡ some u → has u order ≡ true
has-get_elem? [] j u e = cc
has-get_elem? (y ∷ ys) zero u e = ground arith
has-get_elem? (y ∷ ys) (suc j) u e = ground (arith, has-get_elem? ys j u e)

pub has-remove_at :
    (order : List ℕ) (j u x : ℕ)
    → Distinct order
    → get_elem? order j ≡ some u
    → has x (remove_at order j) ≡ (if u == x then false else has x order)
has-remove_at [] j u x d e = cc
has-remove_at (y ∷ ys) zero u x (d, ds) e = ground arith
has-remove_at (y ∷ ys) (suc j) u x (d, ds) e =
    ground (arith, has-remove_at ys j u x ds e, has-get_elem? ys j u e)

Distinct-remove_at :
    (order : List ℕ) (j u : ℕ)
    → Distinct order
    → get_elem? order j ≡ some u
    → Distinct (remove_at order j)
Distinct-remove_at [] j u d e = cc
Distinct-remove_at (y ∷ ys) zero u (d, ds) e = ds
Distinct-remove_at (y ∷ ys) (suc j) u (d, ds) e =
    (ground (arith, has-remove_at ys j u y ds e), Distinct-remove_at ys j u ds e)

pub length-remove_at :
    (order : List ℕ) (j u : ℕ)
    → get_elem? order j ≡ some u
    → length (remove_at order j) + 1 ≡ length order
length-remove_at [] j u e = cc
length-remove_at (y ∷ ys) zero u e = omega arith
length-remove_at (y ∷ ys) (suc j) u e = omega (arith, length-remove_at ys j u e)

total-remove_at :
    (w : ℕ → List Ticket) (order : List ℕ) (j u : ℕ)
    → get_elem? order j ≡ some u
    → w u ≡ []
    → total w (remove_at order j) ≡ total w order
total-remove_at w [] j u e z = cc
total-remove_at w (y ∷ ys) zero u e z = ground (arith, z)
total-remove_at w (y ∷ ys) (suc j) u e z = ground (arith, total-remove_at w ys j u e z)

-- A user without tickets leaves the order.
pub Core-drop :
    (w : ℕ → List Ticket) (wt : Assoc ℕ) (order : List ℕ) (n j u : ℕ)
    → Core w wt order n
    → get_elem? order j ≡ some u
    → w u ≡ []
    → Core w wt (remove_at order j) n
Core-drop w wt order n j u v e z = record {
  distinct = Distinct-remove_at order j u v.distinct e;
  covers = λ x h. ground (arith, has-remove_at order j u x v.distinct e, v.covers x, z);
  counted = v.counted ∙ sym (total-remove_at w order j u e z);
  held = v.held;
  filed = v.filed;
}
