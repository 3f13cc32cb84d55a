-- ===== src/Hash/Float64/Laws.antt =====
-- Rounding never takes a quotient below an integer of at most 53 bits that it reaches.
use native.Mathlib.Nat.{
  le-div_iff_mul-le, one-le-pow, pow-suc, mul_assoc, one-mul, mul_right_comm, mul-le-mul, le_trans,
  mul-le-mul_right, mul-le-mul_left, div-one, mod-one, mul-pos, pow-le-pow_right,
}
use libni.Base.{
  ℕ, zero, suc, ◌*◌, ◌/◌, ◌^◌, ◌≤◌, ◌<◌, ◌≡◌, ◌⊎◌, inl, inr, refl, ap, arith, dec_lt, lt→ltb,
  not-ltb,
}
use libni.Hash.Float64.{
  Float64, up_shift, down_shift, nearest_even, rounded, round, of_int, div, mul, to_int,
}

div-le-nearest_even : (n d : ℕ) → n / d ≤ nearest_even n d
unfolding nearest_even
div-le-nearest_even n d = ground arith

-- An integer quotient is rounded to itself.
nearest_even-one : (q : ℕ) → nearest_even q 1 ≡ q
unfolding nearest_even
nearest_even-one q = ground (arith, div-one q, mod-one q)

down_shift-small : (f n d : ℕ) → n < 2 ^ 53 * d → down_shift f n d ≡ 0
unfolding down_shift
down_shift-small zero n d h = refl
down_shift-small (suc f) n d h = ground arith

up_shift-large : (f n d : ℕ) → 2 ^ 52 * d ≤ n → up_shift f n d ≡ 0
unfolding up_shift
up_shift-large zero n d h = refl
up_shift-large (suc f) n d h = ground arith

-- Each shift to the right leaves at least 53 bits.
down_shift-le : (f n d : ℕ) → 2 ^ 52 * d ≤ n → 2 ^ 52 * (d * 2 ^ down_shift f n d) ≤ n
unfolding down_shift
down_shift-le zero n d h = omega arith
down_shift-le (suc f) n d h = elim (dec_lt n (2 ^ 53 * d)) [
  | yes lt ↦ rw (lt→ltb n (2 ^ 53 * d) lt) (omega arith)
  | no big ↦ rw (not-ltb n (2 ^ 53 * d) big) (
      omega (
        arith,
        down_shift-le f n (2 * d) (omega arith),
        pow-suc 2 (down_shift f n (2 * d)),
        ap (λ (t : ℕ). d * t) (pow-suc 2 (down_shift f n (2 * d))),
      ))
]

down_shift-pos : (f n d : ℕ) → 2 ^ 53 * d ≤ n → 1 ≤ down_shift (suc f) n d
unfolding down_shift
down_shift-pos f n d h = ground arith

-- `x` is at least the integer `k`.
abbrev pub AtLeast : ℕ → Float64 → Type 0
AtLeast k x = k * 2 ^ x.up ≤ x.mantissa * 2 ^ x.down

pub to_int-ge : (k : ℕ) (x : Float64) → AtLeast k x → k ≤ to_int x
unfolding to_int
to_int-ge k x h =
    (le-div_iff_mul-le {k = 2 ^ x.up} {x = k} {y = x.mantissa * 2 ^ x.down}
        (one-le-pow x.up 2 (omega arith))).1
      h

-- The shift to the right is 0, or the mantissa has 53 bits.
abbrev Normal : ℕ → ℕ → ℕ → ℕ → Type 0
Normal n d s t = (t ≡ 0) ⊎ ((s ≡ 0) × (1 ≤ t) × (2 ^ 52 * (d * 2 ^ t) ≤ n))

shifts-Normal : (n d : ℕ) → Normal n d (up_shift 64 n d) (down_shift 64 n d)
shifts-Normal n d = elim (dec_lt n (2 ^ 53 * d)) [
  | yes lt ↦ inl (down_shift-small 64 n d lt)
  | no big ↦ inr (
    up_shift-large 64 n d (omega arith),
    down_shift-pos 63 n d (omega arith),
    down_shift-le 64 n d (omega arith),
  )
]

le-nearest_even : (k n d : ℕ) → 0 < d → k * d ≤ n → k ≤ nearest_even n d
le-nearest_even k n d pos h =
    le_trans ((le-div_iff_mul-le {k = d} {x = k} {y = n} pos).1 h) (div-le-nearest_even n d)

rounded-AtLeast :
    (k n d s t : ℕ) → 0 < d → k ≤ 2 ^ 53 → k * d ≤ n → Normal n d s t → AtLeast k (rounded n d s t)
unfolding rounded
rounded-AtLeast k n d s t pos small h (inl e) = rw e (
    omega (
      arith,
      le-nearest_even (k * 2 ^ s) (n * 2 ^ s) (d * 2 ^ 0) (omega arith)
          (omega (arith, mul-le-mul_right (2 ^ s) h, mul_right_comm k (2 ^ s) d)),
    ))
rounded-AtLeast k n d s t pos small h (inr (e, p, q)) = rw e (
    omega (
      arith,
      mul-le-mul {n₁ = 2 ^ 52} {m₁ = 2} {n₂ = nearest_even (n * 2 ^ 0) (d * 2 ^ t)} {m₂ = 2 ^ t}
          (le-nearest_even (2 ^ 52) (n * 2 ^ 0) (d * 2 ^ t)
            (mul-pos pos (one-le-pow t 2 (omega arith))) (omega arith))
          (pow-le-pow_right {n = 2} (omega arith) {i = 1} {j = t} p),
    ))

-- A quotient that reaches an integer of at most 53 bits still reaches it when rounded.
pub round-AtLeast : (k n d : ℕ) → 0 < d → k ≤ 2 ^ 53 → k * d ≤ n → AtLeast k (round n d)
unfolding round
round-AtLeast k n d pos small h =
    rounded-AtLeast k n d (up_shift 64 n d) (down_shift 64 n d) pos small h (shifts-Normal n d)

-- `x` is exactly the integer `k`.
abbrev pub Exactly : ℕ → Float64 → Type 0
Exactly k x = (x.down ≡ 0) × (x.mantissa ≡ k * 2 ^ x.up)

pub of_int-Exactly : (k : ℕ) → k < 2 ^ 53 → Exactly k (of_int k)
unfolding of_int round rounded
of_int-Exactly k h = (
  down_shift-small 64 k 1 (omega arith),
  rw (down_shift-small 64 k 1 (omega arith)) (nearest_even-one (k * 2 ^ up_shift 64 k 1)),
)

exact_value : (k : ℕ) (x : Float64) → Exactly k x → x.mantissa * 2 ^ x.down ≡ k * 2 ^ x.up
exact_value k x (e, m) = rw (e, m) (omega arith)

-- Of two integers, the quotient of a number by one that is no larger is at least 1.
pub div-AtLeast :
    (a c : ℕ) (x y : Float64) → Exactly a x → Exactly c y → 0 < c → c ≤ a → AtLeast 1 (div x y)
unfolding div
div-AtLeast a c x y ex ey pos le =
    rw (exact_value a x ex, exact_value c y ey)
      (round-AtLeast 1 (a * 2 ^ x.up * 2 ^ y.up) (c * 2 ^ y.up * 2 ^ x.up)
        (mul-pos (mul-pos pos (one-le-pow y.up 2 (omega arith))) (one-le-pow x.up 2 (omega arith)))
        (omega arith)
        (omega (
          arith,
          mul_right_comm a (2 ^ x.up) (2 ^ y.up),
          mul-le-mul_right (2 ^ x.up) (mul-le-mul_right (2 ^ y.up) le),
        )))

-- The product of an integer with a number that is at least 1 is at least that integer.
pub mul-AtLeast :
    (k : ℕ) (x y : Float64) → Exactly k x → k ≤ 2 ^ 53 → AtLeast 1 y → AtLeast k (mul x y)
unfolding mul
mul-AtLeast k x y ex small h = rw (exact_value k x ex) (
    round-AtLeast k (k * 2 ^ x.up * (y.mantissa * 2 ^ y.down)) (2 ^ x.up * 2 ^ y.up)
      (mul-pos (one-le-pow x.up 2 (omega arith)) (one-le-pow y.up 2 (omega arith))) small
      (omega (
        arith,
        mul_assoc k (2 ^ x.up) (2 ^ y.up),
        mul-le-mul_left (k * 2 ^ x.up) (rw one-mul at h),
      )))
