-- ===== src/Base/Int.antt =====
-- Signed integers over the native numbers.
use Prim.Native.Nat.{ℕ}
use mathlib.Core.Bool.{Bool, false}
use libni.Base.Tests.{ltb}

-- `negsuc n` is -(n + 1).
pub data ℤ : Type 0 where
  pos : ℕ → ℤ
  negsuc : ℕ → ℤ

-- `j < n` for a `j` that is not negative
abbrev pub ltb_ℤ : ℕ → ℤ → Bool
ltb_ℤ j (ℤ.pos n) = ltb j n
ltb_ℤ j (ℤ.negsuc n) = false
