-- ===== src/Hash/Float64.antt =====
-- The arithmetic of `double` that jump_consistent_hash uses: IEEE 754 binary64 on positive numbers
-- in the normal range, rounded to nearest, ties to even.
pub mod Laws
use libni.Base.{ℕ, zero, suc, ◌+◌, ◌*◌, ◌/◌, ◌%◌, ◌^◌, Bool, ltb, ◌==◌, if◌then◌else◌}

-- mantissa * 2^down / 2^up
pub record Float64 : Type 0 where
  pub mantissa : ℕ
  pub up : ℕ
  pub down : ℕ

-- The least shift that brings n / d up to 2^52, and the least that brings it below 2^53.
up_shift : (fuel n d : ℕ) → ℕ
up_shift zero n d = 0
up_shift (suc f) n d =
    let more = suc (up_shift f (2 * n) d) in if ltb n (2 ^ 52 * d) then more else 0

down_shift : (fuel n d : ℕ) → ℕ
down_shift zero n d = 0
down_shift (suc f) n d =
    let more = suc (down_shift f n (2 * d)) in if ltb n (2 ^ 53 * d) then 0 else more

-- n / d, rounded to an integer
nearest_even : ℕ → ℕ → ℕ
nearest_even n d =
    if ltb (2 * (n % d)) d
    then n / d
    else if ltb d (2 * (n % d))
    then n / d + 1
    else n / d + n / d % 2

-- n / d, shifted and rounded.
rounded : (n d s t : ℕ) → Float64
rounded n d s t = record { mantissa = nearest_even (n * 2 ^ s) (d * 2 ^ t); up = s; down = t }

-- The double nearest to n / d. A shift of 64 binary places is enough for quotients from 2^-12 to
-- 2^116.
pub round : ℕ → ℕ → Float64
round n d = rounded n d (up_shift 64 n d) (down_shift 64 n d)

-- `double(n)` for an integer `n`
pub of_int : ℕ → Float64
of_int n = round n 1

pub div : Float64 → Float64 → Float64
div x y = round (x.mantissa * 2 ^ x.down * 2 ^ y.up) (y.mantissa * 2 ^ y.down * 2 ^ x.up)

pub mul : Float64 → Float64 → Float64
mul x y = round (x.mantissa * 2 ^ x.down * (y.mantissa * 2 ^ y.down)) (2 ^ x.up * 2 ^ y.up)

-- The conversion to an integer drops the fraction.
pub to_int : Float64 → ℕ
to_int x = x.mantissa * 2 ^ x.down / 2 ^ x.up
