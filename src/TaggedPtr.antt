-- ===== src/TaggedPtr.antt =====
-- include/ni/tagged_ptr.hh: class TaggedPtr, a 48-bit address and a 16-bit tag in one word. A
-- pointer is the number that `reinterpret_cast<uint64_t>` gives. Overloads have names of their own:
-- `of_raw`, `of_value` and `of_value_tag` are the constructors. The template parameter only names
-- the pointee and is dropped.
pub mod Laws
pub mod Double
pub mod Atomic
use libni.Base.{ℕ, ◌-◌, ◌^◌, Bool, not, ◌&&◌, bit_and, bit_or, ◌==◌, u16, shl64, shr64, not64}

pub record TaggedPtr : Type 0 where
  pub raw_value : ℕ

abbrev pub value_bits : ℕ
value_bits = 48

abbrev pub value_mask : ℕ
value_mask = shl64 1 value_bits - 1

abbrev pub tag_mask : ℕ
tag_mask = not64 value_mask

-- `TaggedPtr()`
unfoldable pub default : TaggedPtr
default = record { raw_value = 0 }

-- `TaggedPtr(RawType raw)`
unfoldable pub of_raw : ℕ → TaggedPtr
of_raw raw = record { raw_value = raw }

unfoldable pub value : TaggedPtr → ℕ
value p = bit_and p.raw_value value_mask

unfoldable pub tag : TaggedPtr → ℕ
tag p = u16 (shr64 p.raw_value value_bits)

-- `TaggedPtr(Value value)`
unfoldable pub of_value : ℕ → TaggedPtr
of_value v = record { raw_value = v }

-- the condition of its `assert`
pub of_value_asserts : ℕ → Bool
unfolding of_value value
of_value_asserts v = value (of_value v) == v

-- `TaggedPtr(Value value, Tag tag)`: the argument is converted to a `Tag`
unfoldable pub of_value_tag : ℕ → ℕ → TaggedPtr
of_value_tag v t = record { raw_value = bit_or v (shl64 (u16 t) value_bits) }

-- the condition of its `assert`
pub of_value_tag_asserts : ℕ → ℕ → Bool
unfolding of_value_tag value tag
of_value_tag_asserts v t = (value (of_value_tag v t) == v) && (tag (of_value_tag v t) == u16 t)

unfoldable pub set_value : ℕ → TaggedPtr → TaggedPtr
set_value v p = record { raw_value = bit_or v (bit_and p.raw_value tag_mask) }

unfoldable pub set_tag : ℕ → TaggedPtr → TaggedPtr
set_tag t p = record {
  raw_value = bit_or (bit_and p.raw_value value_mask) (shl64 (u16 t) value_bits);
}

unfoldable pub clear_tag : TaggedPtr → TaggedPtr
clear_tag p = record { raw_value = bit_and p.raw_value value_mask }

-- `operator==` and `operator!=`
unfoldable pub equal : TaggedPtr → TaggedPtr → Bool
equal p q = p.raw_value == q.raw_value

unfoldable pub differ : TaggedPtr → TaggedPtr → Bool
unfolding equal
differ p q = not (equal p q)
