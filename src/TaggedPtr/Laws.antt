-- ===== src/TaggedPtr/Laws.antt =====
-- The fields of class TaggedPtr: what the constructors and the setters do to the value and the tag.
use libni.Base.{ℕ, ◌+◌, ◌-◌, ◌*◌, ◌/◌, ◌%◌, ◌^◌, ◌<◌, ◌≡◌, refl, ap, ◌∙◌, ap₂, true, not, ◌↔◌}
use libni.Base.{arith, u16, shl64, bit_and, bit_or}
use libni.Base.Bits.{bit_or-low_high, bit_and-low_mask, bit_and-high_mask}
use libni.TaggedPtr.{
  TaggedPtr, tag_mask, value, tag, of_value_tag, of_value_tag_asserts, set_value, set_tag,
  clear_tag, equal, differ,
}

-- An address that the word has room for, and a word of 64 bits.
abbrev pub Fits : ℕ → Type 0
Fits v = v < 2 ^ 48

abbrev pub IsWord : TaggedPtr → Type 0
IsWord p = p.raw_value < 2 ^ 64

-- The bit operations as arithmetic.
pub value_lem : (p : TaggedPtr) → value p ≡ p.raw_value % 2 ^ 48
unfolding value
value_lem p = bit_and-low_mask 48 p.raw_value

pub tag_lem : (p : TaggedPtr) → tag p ≡ p.raw_value / 2 ^ 48 % 2 ^ 16
unfolding tag
tag_lem p = refl

pub of_value_tag_lem : (v t : ℕ) → Fits v → (of_value_tag v t).raw_value ≡ u16 t * 2 ^ 48 + v
unfolding of_value_tag
of_value_tag_lem v t h = ap (bit_or v) shifted ∙ bit_or-low_high 48 (u16 t) v h
  where
    shifted : shl64 (u16 t) 48 ≡ u16 t * 2 ^ 48
    shifted = omega arith

tag_part : (a : ℕ) → a < 2 ^ 64 → bit_and a tag_mask ≡ a / 2 ^ 48 * 2 ^ 48
tag_part a h = omega (arith, bit_and-high_mask 48 a (2 ^ 16 - 1), bit_and-low_mask 16 (a / 2 ^ 48))

pub set_value_lem :
    (v : ℕ) (p : TaggedPtr)
    → Fits v
    → IsWord p
    → (set_value v p).raw_value ≡ p.raw_value / 2 ^ 48 * 2 ^ 48 + v
unfolding set_value
set_value_lem v p h w =
    ap (bit_or v) (tag_part p.raw_value w) ∙ bit_or-low_high 48 (p.raw_value / 2 ^ 48) v h

pub set_tag_lem :
    (t : ℕ) (p : TaggedPtr) → (set_tag t p).raw_value ≡ u16 t * 2 ^ 48 + p.raw_value % 2 ^ 48
unfolding set_tag
set_tag_lem t p =
    ap₂ bit_or (bit_and-low_mask 48 p.raw_value) shifted
    ∙ bit_or-low_high 48 (u16 t) (p.raw_value % 2 ^ 48) (omega arith)
  where
    shifted : shl64 (u16 t) 48 ≡ u16 t * 2 ^ 48
    shifted = omega arith

pub clear_tag_lem : (p : TaggedPtr) → (clear_tag p).raw_value ≡ p.raw_value % 2 ^ 48
unfolding clear_tag
clear_tag_lem p = bit_and-low_mask 48 p.raw_value

eq_of_raw_value : (p q : TaggedPtr) → p.raw_value ≡ q.raw_value → p ≡ q
eq_of_raw_value p q e = ground arith

-- The constructor from an address below 2^48 and a tag gives a word of 64 bits, and `value` and
-- `tag` read both back, the tag modulo 2^16.
pub value-of_value_tag :
    (v t : ℕ)
    → Fits v
    → IsWord (of_value_tag v t)
      × (value (of_value_tag v t) ≡ v)
      × (tag (of_value_tag v t) ≡ t % 2 ^ 16)
value-of_value_tag v t h =
    omega (arith, of_value_tag_lem v t h, value_lem (of_value_tag v t), tag_lem (of_value_tag v t))

-- A word of 64 bits is put together again from its value and its tag.
pub of_value_tag-value : (p : TaggedPtr) → IsWord p → of_value_tag (value p) (tag p) ≡ p
of_value_tag-value p w = eq_of_raw_value _ p (
    omega (
      arith,
      of_value_tag_lem (value p) (tag p) (omega (arith, value_lem p)),
      value_lem p,
      tag_lem p,
    ))

-- The `assert` of the constructor from a value and a tag holds exactly when the address fits 48
-- bits.
pub of_value_tag_asserts_iff : (v t : ℕ) → (of_value_tag_asserts v t ≡ true) ↔ Fits v
unfolding of_value_tag_asserts
of_value_tag_asserts_iff v t = (
  λ e. ground (arith, value_lem (of_value_tag v t)),
  λ h. ground (arith, value-of_value_tag v t h),
)

-- On a word of 64 bits, with an address below 2^48: `set_value` stores the address and keeps the
-- tag, `set_tag` stores the tag modulo 2^16 and keeps the value, and `clear_tag` keeps the value and
-- leaves tag 0.
pub setters :
    (p : TaggedPtr) (v t : ℕ)
    → IsWord p
    → Fits v
    → ((value (set_value v p) ≡ v) × (tag (set_value v p) ≡ tag p))
      × ((value (set_tag t p) ≡ value p) × (tag (set_tag t p) ≡ t % 2 ^ 16))
      × ((value (clear_tag p) ≡ value p) × (tag (clear_tag p) ≡ 0))
setters p v t w h = omega (
  arith,
  set_value_lem v p h w,
  set_tag_lem t p,
  clear_tag_lem p,
  value_lem p,
  tag_lem p,
  value_lem (set_value v p),
  tag_lem (set_value v p),
  value_lem (set_tag t p),
  tag_lem (set_tag t p),
  value_lem (clear_tag p),
  tag_lem (clear_tag p),
)

-- Two words of 64 bits compare equal exactly when both their values and their tags are equal, and
-- `operator!=` is the opposite.
pub equal_iff :
    (p q : TaggedPtr)
    → IsWord p
    → IsWord q
    → ((equal p q ≡ true) ↔ ((value p ≡ value q) × (tag p ≡ tag q)))
      × (differ p q ≡ not (equal p q))
unfolding equal differ
equal_iff p q wp wq = (
  (
    λ e. ground (arith, value_lem p, value_lem q, tag_lem p, tag_lem q),
    λ e. ground (arith, value_lem p, value_lem q, tag_lem p, tag_lem q),
  ),
  refl,
)
