-- ===== src/Hash/Jump.antt =====
-- src/hash/jump_consistent_hash.cc. `b` and `j` are never negative.
pub mod Laws
mod Tests
use libni.Base.{ℕ, zero, suc, ◌+◌, ◌*◌, Option, none, some, if◌then◌else◌, u64, shr64}
use libni.Base.Int.{ℤ, pos, negsuc, ltb_ℤ}
use libni.Hash.Float64.{of_int, div, mul, to_int}

-- `key * 2862933555777941757ULL + 1`
next_key : ℕ → ℕ
next_key key = u64 (u64 (key * 2862933555777941757) + 1)

-- `(b + 1) * (double(1LL << 31) / double((key >> 33) + 1))`, converted to int64_t
jump : (b key : ℕ) → ℕ
jump b key = to_int (mul (of_int (b + 1)) (div (of_int 0x80000000) (of_int (shr64 key 33 + 1))))

-- The loop on fuel; `none` means that the fuel ran out.
loop : (fuel : ℕ) → ℤ → (key b j : ℕ) → Option ℕ
loop zero num_buckets key b j = if ltb_ℤ j num_buckets then none else some b
loop (suc f) num_buckets key b j =
    let key' = next_key key in
    let rest = loop f num_buckets key' j (jump j key') in
    if ltb_ℤ j num_buckets then rest else some b

-- One round for each bucket is enough.
rounds : ℤ → ℕ
rounds (pos n) = n
rounds (negsuc n) = 0

pub jump_consistent_hash : ℕ → ℤ → Option ℕ
unfolding loop rounds
jump_consistent_hash key num_buckets = loop (rounds num_buckets) num_buckets key 1 0
