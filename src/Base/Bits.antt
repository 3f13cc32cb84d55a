-- ===== src/Base/Bits.antt =====
-- `|` and `&` as arithmetic, at every width: the fields of a word and its masks.
use Prim.Native.Nat.{
  ℕ, zero, suc, ◌+◌, ◌-◌, ◌*◌, ◌/◌, ◌%◌, ◌^◌, ◌≤◌, ◌<◌, min, max, bit_and, bit_or, digits,
  bit_and-bitwise, bit_or-bitwise,
}
use mathlib.Core.Path.{◌≡◌, refl, sym, ap, ap₂, ◌∙◌}
use mathlib.Core.Logic.{◌≢◌}
use native.Mathlib.Nat.{
  zero-add, pow-suc, pow-succ', one-le-pow, div-add-mod', mod-lt, div-div-eq-div-mul, mod_self,
}
use native.Mathlib.Decide.{ℕ_discrete}
use native.Mathlib.Omega.{arith}

-- The digit recursion does not depend on its fuel, if that covers the first number.
module _ (z : ℕ → ℕ) (f : ℕ → ℕ → ℕ) where
  digits-eq_of_le : (n m a b : ℕ) → a ≤ n → a ≤ m → digits z f n a b ≡ digits z f m a b
  digits-eq_of_le zero zero a b p q = refl
  digits-eq_of_le zero (suc m) zero b p q = refl
  digits-eq_of_le zero (suc m) (suc a) b p q = absurd (omega arith)
  digits-eq_of_le (suc n) zero zero b p q = refl
  digits-eq_of_le (suc n) zero (suc a) b p q = absurd (omega arith)
  digits-eq_of_le (suc n) (suc m) zero b p q = refl
  digits-eq_of_le (suc n) (suc m) (suc a) b p q =
      omega (arith, digits-eq_of_le n m (suc a / 2) (b / 2) (omega arith) (omega arith))

-- One binary digit at a time.
pub bit_or_digit : (a b : ℕ) → bit_or a b ≡ 2 * bit_or (a / 2) (b / 2) + max (a % 2) (b % 2)
bit_or_digit zero b = omega (arith, bit_or-bitwise 0 b, bit_or-bitwise 0 (b / 2))
bit_or_digit (suc a) b = omega (
  arith,
  bit_or-bitwise (suc a) b,
  bit_or-bitwise (suc a / 2) (b / 2),
  digits-eq_of_le (λ y. y) max a (suc a / 2) (suc a / 2) (b / 2) (omega arith) (omega arith),
)

pub bit_and_digit : (a b : ℕ) → bit_and a b ≡ 2 * bit_and (a / 2) (b / 2) + min (a % 2) (b % 2)
bit_and_digit zero b = omega (arith, bit_and-bitwise 0 b, bit_and-bitwise 0 (b / 2))
bit_and_digit (suc a) b = omega (
  arith,
  bit_and-bitwise (suc a) b,
  bit_and-bitwise (suc a / 2) (b / 2),
  digits-eq_of_le (λ y. 0) min a (suc a / 2) (suc a / 2) (b / 2) (omega arith) (omega arith),
)

-- The second number of these runs out first: induction on a bound of the first.
bit_or-zero_bound : (n a : ℕ) → a ≤ n → bit_or a 0 ≡ a
bit_or-zero_bound zero a h = omega (arith, bit_or-bitwise a 0, ap (λ (t : ℕ). bit_or t 0) e)
  where
    e : a ≡ 0
    e = omega arith
bit_or-zero_bound (suc n) a h =
    omega (arith, bit_or_digit a 0, bit_or-zero_bound n (a / 2) (omega arith))

bit_and-zero_bound : (n a : ℕ) → a ≤ n → bit_and a 0 ≡ 0
bit_and-zero_bound zero a h = ap (λ (t : ℕ). bit_and t 0) e
  where
    e : a ≡ 0
    e = omega arith
bit_and-zero_bound (suc n) a h =
    omega (arith, bit_and_digit a 0, bit_and-zero_bound n (a / 2) (omega arith))

pub bit_or-zero : (a : ℕ) → bit_or a 0 ≡ a
bit_or-zero a = bit_or-zero_bound a a (omega arith)

pub bit_and-zero : (a : ℕ) → bit_and a 0 ≡ 0
bit_and-zero a = bit_and-zero_bound a a (omega arith)

pub zero-bit_or : (a : ℕ) → bit_or 0 a ≡ a
zero-bit_or a = bit_or-bitwise 0 a

mul-pow-suc : (q k : ℕ) → q * 2 ^ suc k ≡ 2 * (q * 2 ^ k)
mul-pow-suc q k = omega (arith, ap (λ (t : ℕ). q * t) (pow-suc 2 k))

-- A field `q` above the low `k` bits, joined with low bits on either side, is a sum.
pub bit_or-high_low : (k q r : ℕ) → r < 2 ^ k → bit_or (q * 2 ^ k) r ≡ q * 2 ^ k + r
bit_or-high_low zero q r h = ground (arith, bit_or-zero q)
bit_or-high_low (suc k) q r h = omega (
  arith,
  bit_or_digit (q * 2 ^ suc k) r,
  ap (λ (t : ℕ). bit_or t (r / 2)) halved,
  mul-pow-suc q k,
  pow-suc 2 k,
  bit_or-high_low k q (r / 2) (omega (arith, pow-suc 2 k)),
)
  where
    halved : q * 2 ^ suc k / 2 ≡ q * 2 ^ k
    halved = omega (arith, mul-pow-suc q k)

pub bit_or-low_high : (k q r : ℕ) → r < 2 ^ k → bit_or r (q * 2 ^ k) ≡ q * 2 ^ k + r
bit_or-low_high zero q r h = ground (arith, zero-bit_or q)
bit_or-low_high (suc k) q r h = omega (
  arith,
  bit_or_digit r (q * 2 ^ suc k),
  ap (λ (t : ℕ). bit_or (r / 2) t) halved,
  mul-pow-suc q k,
  pow-suc 2 k,
  bit_or-low_high k q (r / 2) (omega (arith, pow-suc 2 k)),
)
  where
    halved : q * 2 ^ suc k / 2 ≡ q * 2 ^ k
    halved = omega (arith, mul-pow-suc q k)

pub pow_add : (a k : ℕ) → 2 ^ (a + k) ≡ 2 ^ a * 2 ^ k
pow_add zero k = omega (arith, ap (λ (t : ℕ). 2 ^ t) (zero-add k))
pow_add (suc a) k = omega (
  arith,
  pow-suc 2 (a + k),
  ap (λ (t : ℕ). 2 ^ t) shifted,
  pow_add a k,
  ap (λ (t : ℕ). t * 2 ^ k) (pow-suc 2 a),
)
  where
    shifted : suc a + k ≡ suc (a + k)
    shifted = omega arith

-- A mask of `k` low ones is the remainder by `2 ^ k`.
bit_and-fields : (k q r : ℕ) → r < 2 ^ k → bit_and (q * 2 ^ k + r) (2 ^ k - 1) ≡ r
bit_and-fields zero q r h = ground (arith, bit_and-zero (q * 2 ^ 0 + r))
bit_and-fields (suc k) q r h = omega (
  arith,
  bit_and_digit (q * 2 ^ suc k + r) (2 ^ suc k - 1),
  ap₂ bit_and left right,
  mul-pow-suc q k,
  pow-suc 2 k,
  one-le-pow k 2 (omega arith),
  bit_and-fields k q (r / 2) (omega (arith, pow-suc 2 k)),
)
  where
    left : (q * 2 ^ suc k + r) / 2 ≡ q * 2 ^ k + r / 2
    left = omega (arith, mul-pow-suc q k)

    right : (2 ^ suc k - 1) / 2 ≡ 2 ^ k - 1
    right = omega (arith, pow-suc 2 k, one-le-pow k 2 (omega arith))

pub bit_and-low_mask : (k a : ℕ) → bit_and a (2 ^ k - 1) ≡ a % 2 ^ k
bit_and-low_mask k a =
    ap (λ (t : ℕ). bit_and t (2 ^ k - 1)) (sym (div-add-mod' a (2 ^ k)))
    ∙ bit_and-fields k (a / 2 ^ k) (a % 2 ^ k) (mod-lt a (one-le-pow k 2 (omega arith)))

-- A mask with `k` zeros at its low end clears the low `k` bits.
pub bit_and-high_mask : (k a m : ℕ) → bit_and a (m * 2 ^ k) ≡ bit_and (a / 2 ^ k) m * 2 ^ k
bit_and-high_mask zero a m = ground arith
bit_and-high_mask (suc k) a m = omega (
  arith,
  bit_and_digit a (m * 2 ^ suc k),
  ap (bit_and (a / 2)) halved,
  mul-pow-suc m k,
  mul-pow-suc (bit_and (a / 2 ^ suc k) m) k,
  bit_and-high_mask k (a / 2) m,
  ap (λ (t : ℕ). bit_and t m * 2 ^ k) split,
)
  where
    halved : m * 2 ^ suc k / 2 ≡ m * 2 ^ k
    halved = omega (arith, mul-pow-suc m k)

    split : a / 2 / 2 ^ k ≡ a / 2 ^ suc k
    split = div-div-eq-div-mul a 2 (2 ^ k) ∙ ap (λ (t : ℕ). a / t) (sym (pow-succ' 2 k))

bit_and_self_bound : (n a : ℕ) → a ≤ n → bit_and a a ≡ a
bit_and_self_bound zero a h = ap (λ (t : ℕ). bit_and t t) e ∙ sym e
  where
    e : a ≡ 0
    e = omega arith
bit_and_self_bound (suc n) a h =
    omega (arith, bit_and_digit a a, bit_and_self_bound n (a / 2) (omega arith))

-- The usual test for a power of two.
power_of_two_bound : (n a : ℕ) → a ≤ n → 1 ≤ a → bit_and a (a - 1) ≡ 0 → (k : ℕ) × (a ≡ 2 ^ k)
power_of_two_bound zero a h pos e = absurd (omega arith)
power_of_two_bound (suc n) a h pos e = elim (ℕ_discrete (a % 2) 0) [
  | yes even ↦
      let (k, p) = power_of_two_bound n (a / 2) (omega arith) (omega arith) (below even) in
      (suc k, omega (arith, pow-suc 2 k, p))
  | no odd ↦ (
    0,
    omega (
      arith,
      bit_and_digit a (a - 1),
      ap (bit_and (a / 2)) (same odd),
      bit_and_self_bound (a / 2) (a / 2) (omega arith),
    ),
  )
]
  where
    below : a % 2 ≡ 0 → bit_and (a / 2) (a / 2 - 1) ≡ 0
    below even = omega (arith, bit_and_digit a (a - 1), ap (bit_and (a / 2)) halves)
      where
        halves : (a - 1) / 2 ≡ a / 2 - 1
        halves = omega arith

    same : a % 2 ≢ 0 → (a - 1) / 2 ≡ a / 2
    same odd = omega arith

pub power_of_two : (a : ℕ) → 1 ≤ a → bit_and a (a - 1) ≡ 0 → (k : ℕ) × (a ≡ 2 ^ k)
power_of_two a = power_of_two_bound a a (omega arith)

pub bit_and-pow-pred : (k : ℕ) → bit_and (2 ^ k) (2 ^ k - 1) ≡ 0
bit_and-pow-pred k = bit_and-low_mask k (2 ^ k) ∙ mod_self (2 ^ k)
