-- ===== src/Tests/TaggedPtr.antt =====
-- include/ni/tagged_ptr.hh at concrete words.
use libni.Base.{ℕ, ◌≡◌, ◌↔◌, refl, arith, true}
use libni.TaggedPtr.{TaggedPtr, value, tag, of_value_tag, set_value, set_tag, clear_tag}
use libni.TaggedPtr.Laws.{IsWord, value-of_value_tag, setters}
use libni.TaggedPtr.Double
use libni.TaggedPtr.Double.Laws.{fields-of_value_tags}
use libni.TaggedPtr.Atomic
use libni.TaggedPtr.Atomic.{single_word, AtomicTaggedPtr}
use libni.TaggedPtr.Atomic.Laws.{reuse_detected_iff}

abbrev word : TaggedPtr
word = record { raw_value = 0x002a_0000_0000_1040 }

abbrev other_word : TaggedPtr
other_word = record { raw_value = 0x002b_0000_0000_1040 }

packs : of_value_tag 0x1040 42 ≡ word
unfolding of_value_tag
packs = refl

value-of_value_tag_example :
    IsWord (of_value_tag 0x1040 0x1002a)
    × (value (of_value_tag 0x1040 0x1002a) ≡ 0x1040)
    × (tag (of_value_tag 0x1040 0x1002a) ≡ 42)
value-of_value_tag_example = value-of_value_tag 0x1040 0x1002a (omega arith)

setters_example :
    ((value (set_value 0x2000 word) ≡ 0x2000) × (tag (set_value 0x2000 word) ≡ tag word))
    × ((value (set_tag 7 word) ≡ value word) × (tag (set_tag 7 word) ≡ 7))
    × ((value (clear_tag word) ≡ value word) × (tag (clear_tag word) ≡ 0))
setters_example = setters word 0x2000 7 (omega arith) (omega arith)

-- The type of the repository's test: alignment 16, `int` for the second tag.
bits_of_16 : Double.tag2_bits 16 ≡ 4
unfolding Double.tag2_bits Double.ctz
bits_of_16 = refl

fields-of_value_tags_example :
    (Double.value 16 (Double.of_value_tags 32 0x7ff0 42 3) ≡ 0x7ff0)
    × (Double.tag1 (Double.of_value_tags 32 0x7ff0 42 3) ≡ 42)
    × (Double.tag2 16 32 (Double.of_value_tags 32 0x7ff0 42 3) ≡ 3)
fields-of_value_tags_example =
    fields-of_value_tags 4 32 0x7ff0 42 3 (omega arith) (omega (arith, bits_of_16)) (omega arith)
      (omega arith) (omega arith) (omega arith)

abbrev cell : AtomicTaggedPtr
cell = record { m_raw_value = 0x002a_0000_0000_1040 }

reuse_detected_iff_example :
    ((Atomic.compare_exchange_strong
        (of_value_tag 0x1040 42)
        word
        (Atomic.make (of_value_tag 0x1040 65578))).0
      ≡ true)
    ↔ (◌≡◌ {A = ℕ} 0 0)
reuse_detected_iff_example = reuse_detected_iff 0x1040 42 65536 word (omega arith)
