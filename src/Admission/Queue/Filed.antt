-- ===== src/Admission/Queue/Filed.antt =====
-- internal/admission/queue.go and gate.go: tickets that leave a map one after the other.
use llm2api.Prelude.{
  ℕ, ◌≡◌, refl, ◌∙◌, true, List, [], ◌∷◌, ◌++◌, Assoc, find, erase, find-erase, arith,
}
use llm2api.Admission.Queue.{is_some}

module _ {ℓ} {V : Type ℓ} where
  -- The map without the IDs.
  abbrev pub unfile : List ℕ → Assoc V → Assoc V
  unfile [] m = m
  unfile (id ∷ ids) m = unfile ids (erase id m)

  -- Each ID has an entry when its turn to leave comes, so that none is there twice.
  abbrev pub AllFiled : List ℕ → Assoc V → Type 0
  AllFiled [] m = Unit {0}
  AllFiled (id ∷ ids) m = (is_some (find id m) ≡ true) × AllFiled ids (erase id m)

  pub unfile-append : (xs ys : List ℕ) (m : Assoc V) → unfile (xs ++ ys) m ≡ unfile ys (unfile xs m)
  unfile-append [] ys m = refl
  unfile-append (x ∷ xs) ys m = unfile-append xs ys (erase x m)

  pub AllFiled-append :
      (xs ys : List ℕ) (m : Assoc V)
      → AllFiled xs m
      → AllFiled ys (unfile xs m)
      → AllFiled (xs ++ ys) m
  AllFiled-append [] ys m h k = k
  AllFiled-append (x ∷ xs) ys m h k = (h.0, AllFiled-append xs ys (erase x m) h.1 k)

module _ {ℓ κ} {V : Type ℓ} {W : Type κ} where
  -- Two maps with entries for the same IDs.
  abbrev pub SameIds : Assoc V → Assoc W → Type 0
  SameIds m n = (id : ℕ) → is_some (find id m) ≡ is_some (find id n)

  pub SameIds-erase :
      (id : ℕ) (m : Assoc V) (n : Assoc W) → SameIds m n → SameIds (erase id m) (erase id n)
  SameIds-erase id m n h i = ground (arith, h i, find-erase id i m, find-erase id i n)

  pub SameIds-unfile :
      (ids : List ℕ) (m : Assoc V) (n : Assoc W)
      → SameIds m n
      → SameIds (unfile ids m) (unfile ids n)
  SameIds-unfile [] m n h = h
  SameIds-unfile (id ∷ ids) m n h =
      SameIds-unfile ids (erase id m) (erase id n) (SameIds-erase id m n h)

  pub AllFiled-SameIds :
      (ids : List ℕ) (m : Assoc V) (n : Assoc W) → SameIds m n → AllFiled ids n → AllFiled ids m
  AllFiled-SameIds [] m n h f = tt
  AllFiled-SameIds (id ∷ ids) m n h f =
      (h id ∙ f.0, AllFiled-SameIds ids (erase id m) (erase id n) (SameIds-erase id m n h) f.1)
