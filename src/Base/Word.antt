-- ===== src/Base/Word.antt =====
-- Machine words as native numbers: conversions wrap, a shift to the left drops the bits it pushes
-- out.
use Prim.Native.Nat.{ℕ, ◌-◌, ◌*◌, ◌/◌, ◌%◌, ◌^◌}

abbrev pub u16 : ℕ → ℕ
u16 n = n % 2 ^ 16

abbrev pub u32 : ℕ → ℕ
u32 n = n % 2 ^ 32

abbrev pub u64 : ℕ → ℕ
u64 n = n % 2 ^ 64

-- `<<` and `>>` on uint64_t
abbrev pub shl64 : ℕ → ℕ → ℕ
shl64 x k = x * 2 ^ k % 2 ^ 64

abbrev pub shr64 : ℕ → ℕ → ℕ
shr64 x k = x / 2 ^ k

-- `~` on uint64_t
abbrev pub not64 : ℕ → ℕ
not64 x = 2 ^ 64 - 1 - x
