-- ===== src/Prelude/Ints.antt =====
-- Integers over the native numbers, for Go's signed values: `negsuc n` is -(n + 1).
use Prim.Native.Nat.{ℕ, ◌+◌, ◌-◌}
use mathlib.Core.Bool.{Bool, true, false}
use mnemoca.Prelude.Tests.{leb, ltb, if◌then◌else◌}

pub data ℤ : Type 0 where
  pos negsuc : ℕ → ℤ

abbrev pub int_leb : ℤ → ℤ → Bool
int_leb (pos m) (pos n) = leb m n
int_leb (pos m) (negsuc n) = false
int_leb (negsuc m) (pos n) = true
int_leb (negsuc m) (negsuc n) = leb n m

abbrev pub int_add : ℤ → ℤ → ℤ
int_add (pos m) (pos n) = pos (m + n)
int_add (pos m) (negsuc n) = if ltb n m then pos (m - (n + 1)) else negsuc (n - m)
int_add (negsuc m) (pos n) = if ltb m n then pos (n - (m + 1)) else negsuc (m - n)
int_add (negsuc m) (negsuc n) = negsuc (m + n + 1)
