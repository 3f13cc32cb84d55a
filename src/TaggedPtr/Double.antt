-- ===== src/TaggedPtr/Double.antt =====
-- include/ni/tagged_ptr.hh: class DoubleTagPtr, an address with a 16-bit tag above it and a second
-- tag in the low bits that the alignment of the pointee leaves free. `Tag2` is an unsigned type of
-- `width` bits; a signed one agrees with it on the tags that are not negative.
pub mod Laws
use libni.Base.{
  ℕ, zero, suc, ◌-◌, ◌/◌, ◌%◌, ◌^◌, ◌≤◌, Bool, not, min, bit_and, bit_or, ◌==◌, if◌then◌else◌, u16,
  u32, shl64, shr64, not64,
}

pub record DoubleTagPtr : Type 0 where
  pub raw_value : ℕ

-- `__builtin_ctz`: the zeros below the lowest one of an `unsigned`
trailing_zeros : ℕ → ℕ → ℕ
trailing_zeros zero n = 0
trailing_zeros (suc f) n = if n % 2 == 0 then suc (trailing_zeros f (n / 2)) else 0

unfoldable pub ctz : ℕ → ℕ
unfolding trailing_zeros
ctz n = trailing_zeros 32 (u32 n)

abbrev pub value_bits : ℕ
value_bits = 48

unfoldable pub default : DoubleTagPtr
default = record { raw_value = 0 }

unfoldable pub of_raw : ℕ → DoubleTagPtr
of_raw raw = record { raw_value = raw }

unfoldable pub of_value : ℕ → DoubleTagPtr
of_value v = record { raw_value = v }

unfoldable pub tag1 : DoubleTagPtr → ℕ
tag1 p = u16 (shr64 p.raw_value value_bits)

-- `operator==` and `operator!=`
unfoldable pub equal : DoubleTagPtr → DoubleTagPtr → Bool
equal p q = p.raw_value == q.raw_value

unfoldable pub differ : DoubleTagPtr → DoubleTagPtr → Bool
unfolding equal
differ p q = not (equal p q)

module _ (alignment : ℕ) where
  -- `TAG2_MAX_BITS` and `TAG2_BITS`
  unfoldable pub tag2_bits : ℕ
  tag2_bits = min value_bits (ctz alignment)

  unfoldable pub tag2_mask : ℕ
  tag2_mask = shl64 1 tag2_bits - 1

  unfoldable pub value_mask : ℕ
  value_mask = bit_and (shl64 1 value_bits - 1) (not64 tag2_mask)

  unfoldable pub value : DoubleTagPtr → ℕ
  value p = bit_and p.raw_value value_mask

  -- the `static_assert` of the class
  abbrev pub Tag2Fits : ℕ → Type 0
  Tag2Fits width = tag2_bits ≤ width

  unfoldable pub tag2 : ℕ → DoubleTagPtr → ℕ
  tag2 width p = bit_and p.raw_value tag2_mask % 2 ^ width

-- `DoubleTagPtr(Value value, Tag1 tag1, Tag2 tag2)`: the tags are converted to their types
unfoldable pub of_value_tags : ℕ → ℕ → ℕ → ℕ → DoubleTagPtr
of_value_tags width v t1 t2 = record {
  raw_value = bit_or (bit_or v (shl64 (u16 t1) value_bits)) (t2 % 2 ^ width);
}
