-- ===== src/Tests/Hash.antt =====
-- include/ni/hash at concrete keys.
use libni.Base.{ℕ, ◌+◌, ◌*◌, ◌/◌, ◌%◌, ◌^◌, ◌≡◌, arith, some, List, [], ◌∷◌, u64}
use libni.Hash.MultiLinear.{hashed, fill_random_data, call}
use libni.Hash.MultiLinear.Laws.{multilinear, call-multilinear}

-- a linear congruential generator
abbrev draw : ℕ → ℕ × ℕ
draw x = let y = u64 (x * 6364136223846793005 + 1442695040888963407) in (y, y)

abbrev text : List ℕ
text = 110 ∷ 105 ∷ 99 ∷ []

call-multilinear_example :
    call (fill_random_data draw 8 42) (some text)
    ≡ hashed (multilinear (fill_random_data draw 8 42).m_rand text / 2 ^ 32 % 2 ^ 32)
call-multilinear_example = call-multilinear draw 8 42 text (omega arith)
