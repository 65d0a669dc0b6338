-- ===== src/Prelude/Int.antt =====
-- Go's signed integers where the source tests their sign: under the library's names, over ℕ.
use Prim.Native.Nat.{ℕ, suc, ◌+◌, ◌-◌, ◌%◌}
use mathlib.Core.Bool.{Bool, true, false}
use llm2api.Prelude.Tests.{ltb, if◌then◌else◌}

-- `negsuc n` is -(n + 1).
pub data ℤ : Type 0 where
  pos : ℕ → ℤ
  negsuc : ℕ → ℤ

abbrev pub pos_part : ℤ → ℕ
pos_part (pos n) = n
pos_part (negsuc n) = 0

-- An int64 and its 64 bits.
abbrev pub signed64 : ℕ → ℤ
signed64 n = if ltb n 9223372036854775808 then pos n else negsuc (18446744073709551615 - n)

abbrev pub word64 : ℤ → ℕ
word64 (pos n) = n
word64 (negsuc n) = 18446744073709551616 - suc n

abbrev pub add64 : ℤ → ℤ → ℤ
add64 a b = signed64 ((word64 a + word64 b) % 18446744073709551616)

abbrev pub less_int : ℤ → ℤ → Bool
less_int (pos a) (pos b) = ltb a b
less_int (pos a) (negsuc b) = false
less_int (negsuc a) (pos b) = true
less_int (negsuc a) (negsuc b) = ltb b a

abbrev pub same_int : ℤ → ℤ → Bool
same_int a b = if less_int a b then false else if less_int b a then false else true
