-- ===== src/Hash/Jump/Tests.antt =====
-- src/hash/jump_consistent_hash.cc at one key, as the number of buckets grows.
use libni.Base.{ℕ, ◌≡◌, ◌⊎◌, ◌<◌, arith, some}
use libni.Base.Int.{pos}
use libni.Hash.Jump.{jump_consistent_hash}
use libni.Hash.Jump.Laws.{jump_consistent_hash-lt, jump_consistent_hash_monotone}

abbrev Found : ℕ → Type 0
Found n = (r : ℕ) × (jump_consistent_hash 0x1234_5678 (pos n) ≡ some r) × (r < n)

jump_consistent_hash-lt_example : Found 10
jump_consistent_hash-lt_example = jump_consistent_hash-lt 0x1234_5678 10 (omega arith) (omega arith)

among_two : Found 2
among_two = jump_consistent_hash-lt 0x1234_5678 2 (omega arith) (omega arith)

among_three : Found 3
among_three = jump_consistent_hash-lt 0x1234_5678 3 (omega arith) (omega arith)

jump_consistent_hash_monotone_example : (among_three.0 ≡ among_two.0) ⊎ (among_three.0 ≡ 2)
jump_consistent_hash_monotone_example =
    jump_consistent_hash_monotone 0x1234_5678 2 (omega arith) among_two.1 among_three.1
