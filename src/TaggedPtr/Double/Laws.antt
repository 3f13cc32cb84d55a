-- ===== src/TaggedPtr/Double/Laws.antt =====
-- The three fields of class DoubleTagPtr.
use native.Mathlib.Nat.{
  div-eq_of_lt-le, pow-le-pow_right, one-le-pow, pow-suc, mul-le-mul_right, mul-add-mod_self_right,
  mul-add-div_right, mul_assoc, add-mul, mod-eq_of_lt, suc-mul, div-add-mod', div-lt_iff_lt-mul,
  div-eq_of_lt,
}
use libni.Base.{
  ℕ, zero, suc, ◌+◌, ◌-◌, ◌*◌, ◌/◌, ◌%◌, ◌^◌, ◌≤◌, ◌<◌, ◌≡◌, refl, sym, ap, ap₂, ◌∙◌, arith,
  bit_and, bit_or, u16, u32, shl64, not64,
}
use libni.Base.Bits.{bit_or-low_high, bit_or-high_low, bit_and-low_mask, bit_and-high_mask, pow_add}
use libni.TaggedPtr.Double.{
  DoubleTagPtr, trailing_zeros, ctz, tag1, tag2_bits, Tag2Fits, tag2_mask, value_mask,
  of_value_tags, value, tag2,
}

trailing_zeros-pow : (f a : ℕ) → a < f → trailing_zeros f (2 ^ a) ≡ a
unfolding trailing_zeros
trailing_zeros-pow zero a h = absurd (omega arith)
trailing_zeros-pow (suc f) zero h = refl
trailing_zeros-pow (suc f) (suc a) h =
    ground (arith, pow-suc 2 a, ap (trailing_zeros f) half, trailing_zeros-pow f a)
  where
    half : 2 ^ suc a / 2 ≡ 2 ^ a
    half = omega (arith, pow-suc 2 a)

-- The alignment of a type is a power of two.
pub ctz-pow : (a : ℕ) → a < 32 → ctz (2 ^ a) ≡ a
unfolding ctz
ctz-pow a h = ap (trailing_zeros 32) small ∙ trailing_zeros-pow 32 a h
  where
    small : u32 (2 ^ a) ≡ 2 ^ a
    small = mod-eq_of_lt (
        omega (
          arith,
          pow-le-pow_right {n = 2} (omega arith) {i = suc a} {j = 32} h,
          pow-suc 2 a,
          one-le-pow a 2 (omega arith),
        ))

pred_mul : (x y : ℕ) → 1 ≤ x → (x - 1) * y + y ≡ x * y
pred_mul zero y h = absurd (omega arith)
pred_mul (suc x) y h = omega (arith, ap (λ (t : ℕ). t * y) down, suc-mul x y)
  where
    down : suc x - 1 ≡ x
    down = omega arith

pow_split : (n t : ℕ) → t ≤ n → 2 ^ (n - t) * 2 ^ t ≡ 2 ^ n
pow_split n t h = sym (pow_add (n - t) t) ∙ ap (λ (k : ℕ). 2 ^ k) whole
  where
    whole : n - t + t ≡ n
    whole = omega arith

-- A word of 48 bits cut at bit `t`.
module _ (t : ℕ) (le : t ≤ 48) where
  abbrev low : ℕ
  low = 2 ^ t

  abbrev high : ℕ
  high = 2 ^ (48 - t)

  low_pos : 1 ≤ low
  low_pos = one-le-pow t 2 (omega arith)

  high_pos : 1 ≤ high
  high_pos = one-le-pow (48 - t) 2 (omega arith)

  mask_quotient : (2 ^ 48 - 1) / low ≡ high - 1
  mask_quotient =
      div-eq_of_lt-le {k = high - 1} low
        (omega (arith, pow_split 48 t le, pred_mul high low high_pos, low_pos))
        (omega (arith, pow_split 48 t le, pred_mul high low high_pos, low_pos))

  inverted_mask : not64 (low - 1) ≡ (2 ^ (64 - t) - 1) * low
  inverted_mask = omega (
    arith,
    pow_split 64 t (omega arith),
    pred_mul (2 ^ (64 - t)) low (one-le-pow (64 - t) 2 (omega arith)),
    low_pos,
  )

  high-le : high ≤ 2 ^ (64 - t)
  high-le = pow-le-pow_right {n = 2} (omega arith) {i = 48 - t} {j = 64 - t} (omega arith)

  address_mask : bit_and (2 ^ 48 - 1) (not64 (low - 1)) ≡ (high - 1) * low
  address_mask =
      ap (bit_and (2 ^ 48 - 1)) inverted_mask
      ∙ bit_and-high_mask t (2 ^ 48 - 1) (2 ^ (64 - t) - 1)
      ∙ ap (λ (k : ℕ). k * low)
          (bit_and-low_mask (64 - t) ((2 ^ 48 - 1) / low)
            ∙ ap (λ (k : ℕ). k % 2 ^ (64 - t)) mask_quotient
            ∙ mod-eq_of_lt (omega (arith, high-le, high_pos)))

  masked : (a : ℕ) → bit_and a (bit_and (2 ^ 48 - 1) (not64 (low - 1))) ≡ a / low % high * low
  masked a =
      ap (bit_and a) address_mask
      ∙ bit_and-high_mask t a (high - 1)
      ∙ ap (λ (k : ℕ). k * low) (bit_and-low_mask (48 - t) (a / low))

  -- the word that holds tag `t1`, the address `k * low` and the second tag `t2`
  abbrev packed : ℕ → ℕ → ℕ → ℕ
  packed t1 k t2 = (t1 * high + k) * low + t2

  packed_lem : (t1 k t2 : ℕ) → packed t1 k t2 ≡ t1 * 2 ^ 48 + k * low + t2
  packed_lem t1 k t2 = omega (
    arith,
    add-mul (t1 * high) k low,
    mul_assoc t1 high low,
    ap (λ (x : ℕ). t1 * x) (pow_split 48 t le),
  )

  module _ (t1 k t2 : ℕ) (small1 : t1 < 2 ^ 16) (fits : k < high) (small2 : t2 < low) where
    address-lt : k * low + t2 < 2 ^ 48
    address-lt = omega (arith, mul-le-mul_right {m = suc k} {n = high} low fits, pow_split 48 t le)

    packed_fields :
        (packed t1 k t2 / low % high * low ≡ k * low)
        × (packed t1 k t2 / 2 ^ 48 % 2 ^ 16 ≡ t1)
        × (packed t1 k t2 % low ≡ t2)
    packed_fields = (
      ap (λ (x : ℕ). x * low)
          (ap (λ (x : ℕ). x % high) quotient
            ∙ mul-add-mod_self_right t1 high k
            ∙ mod-eq_of_lt fits),
      omega (arith, packed_lem t1 k t2, address-lt),
      mul-add-mod_self_right (t1 * high + k) low t2 ∙ mod-eq_of_lt small2,
    )
      where
        quotient : packed t1 k t2 / low ≡ t1 * high + k
        quotient = omega (arith, mul-add-div_right low_pos (t1 * high + k) t2, div-eq_of_lt small2)

module _ (a : ℕ) (small : a < 32) where
  bits-pow : tag2_bits (2 ^ a) ≡ a
  unfolding tag2_bits
  bits-pow = omega (arith, ctz-pow a small)

  low-lt : 2 ^ a < 2 ^ 64
  low-lt = omega (arith, pow-le-pow_right {n = 2} (omega arith) {i = a} {j = 48} (omega arith))

  tag2_mask-pow : tag2_mask (2 ^ a) ≡ 2 ^ a - 1
  unfolding tag2_mask
  tag2_mask-pow = ap (λ (t : ℕ). shl64 1 t - 1) bits-pow ∙ omega (arith, low-lt)

  value-pow : (p : DoubleTagPtr) → value (2 ^ a) p ≡ p.raw_value / 2 ^ a % 2 ^ (48 - a) * 2 ^ a
  unfolding value value_mask
  value-pow p =
      ap (λ (m : ℕ). bit_and p.raw_value (bit_and (2 ^ 48 - 1) (not64 m))) tag2_mask-pow
      ∙ masked a (omega arith) p.raw_value

  -- The constructor packs the fields next to each other.
  raw_value-of_value_tags :
      (width v t1 t2 : ℕ)
      → a ≤ width
      → v < 2 ^ 48
      → v % 2 ^ a ≡ 0
      → t1 < 2 ^ 16
      → t2 < 2 ^ a
      → (of_value_tags width v t1 t2).raw_value ≡ packed a (omega arith) t1 (v / 2 ^ a) t2
  unfolding of_value_tags
  raw_value-of_value_tags width v t1 t2 hw hv aligned h1 h2 =
      ap₂ bit_or joined (mod-eq_of_lt narrow)
      ∙ bit_or-high_low a (t1 * 2 ^ (48 - a) + v / 2 ^ a) t2 h2
    where
      narrow : t2 < 2 ^ width
      narrow = omega (arith, pow-le-pow_right {n = 2} (omega arith) {i = a} {j = width} hw)

      shifted : shl64 (u16 t1) 48 ≡ t1 * 2 ^ 48
      shifted = omega arith

      joined : bit_or v (shl64 (u16 t1) 48) ≡ (t1 * 2 ^ (48 - a) + v / 2 ^ a) * 2 ^ a
      joined =
          ap (bit_or v) shifted
          ∙ bit_or-low_high 48 t1 v hv
          ∙ omega (arith, packed_lem a (omega arith) t1 (v / 2 ^ a) 0, div-add-mod' v (2 ^ a))

-- For a pointee aligned to 2^a bytes and a `Tag2` wide enough, an aligned address below 2^48, a
-- first tag of 16 bits and a second tag below 2^a are read back from the word that the constructor
-- packs them into.
pub fields-of_value_tags :
    (a width v t1 t2 : ℕ)
    → a < 32
    → Tag2Fits (2 ^ a) width
    → v < 2 ^ 48
    → v % 2 ^ a ≡ 0
    → t1 < 2 ^ 16
    → t2 < 2 ^ a
    → (value (2 ^ a) (of_value_tags width v t1 t2) ≡ v)
      × (tag1 (of_value_tags width v t1 t2) ≡ t1)
      × (tag2 (2 ^ a) width (of_value_tags width v t1 t2) ≡ t2)
unfolding tag1 tag2
fields-of_value_tags a width v t1 t2 ha hw hv aligned h1 h2 = (
  value-pow a ha p
      ∙ ap (λ (r : ℕ). r / 2 ^ a % 2 ^ (48 - a) * 2 ^ a) raw
      ∙ fields.0
      ∙ omega (arith, div-add-mod' v (2 ^ a)),
  ap (λ (r : ℕ). r / 2 ^ 48 % 2 ^ 16) raw ∙ fields.1,
  ap (λ (m : ℕ). m % 2 ^ width)
        (ap₂ bit_and raw (tag2_mask-pow a ha)
          ∙ bit_and-low_mask a (packed a le t1 (v / 2 ^ a) t2)
          ∙ fields.2)
      ∙ mod-eq_of_lt narrow,
)
  where
    p : DoubleTagPtr
    p = of_value_tags width v t1 t2

    le : a ≤ 48
    le = omega arith

    wide : a ≤ width
    wide = omega (arith, bits-pow a ha)

    narrow : t2 < 2 ^ width
    narrow = omega (arith, pow-le-pow_right {n = 2} (omega arith) {i = a} {j = width} wide)

    raw : p.raw_value ≡ packed a le t1 (v / 2 ^ a) t2
    raw = raw_value-of_value_tags a ha width v t1 t2 wide hv aligned h1 h2

    quotient_lt : v / 2 ^ a < 2 ^ (48 - a)
    quotient_lt =
        (div-lt_iff_lt-mul {k = 2 ^ a} {x = v} {y = 2 ^ (48 - a)} (low_pos a le)).1
          (rw (pow_split 48 a le) hv)

    fields :
        (packed a le t1 (v / 2 ^ a) t2 / 2 ^ a % 2 ^ (48 - a) * 2 ^ a ≡ v / 2 ^ a * 2 ^ a)
        × (packed a le t1 (v / 2 ^ a) t2 / 2 ^ 48 % 2 ^ 16 ≡ t1)
        × (packed a le t1 (v / 2 ^ a) t2 % 2 ^ a ≡ t2)
    fields = packed_fields a le t1 (v / 2 ^ a) t2 h1 quotient_lt h2
