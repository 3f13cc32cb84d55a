-- ===== src/Spsc/Ring/Inv.antt =====
-- A ring that holds the queue `q`, oldest element first, and the arithmetic of its indices.
use native.Mathlib.Nat.{
  mod-eq_of_lt, mod-eq-sub-mod, mod-add-mod, mod-lt, add-mod_right, pow-le-pow_right,
}
use libni.Base.{
  ℕ, zero, suc, ◌+◌, ◌-◌, ◌%◌, ◌^◌, ◌≤◌, ◌<◌, ◌≡◌, ◌≢◌, refl, sym, ap, ◌∙◌, arith, List, [], ◌∷◌,
  ◌++◌, dec_lt, bit_and, ltb, ap₂, ◌==◌, if◌then◌else◌, length, get_or, length-append, u64,
}
use libni.Base.Bits.{bit_and-low_mask}
use libni.Spsc.Ring.{Slot, Ring, slot_at}

-- The position `j` slots after `i`, in a ring of `n` slots.
abbrev pub around : ℕ → ℕ → ℕ → ℕ
around n i j = (i + j) % n

pub around_lem :
    (n i j : ℕ) → i < n → j < n → around n i j ≡ (if ltb (i + j) n then i + j else i + j - n)
around_lem n i j hi hj = elim (dec_lt (i + j) n) [
  | yes p ↦ ground (arith, mod-eq_of_lt p)
  | no p ↦ ground (
    arith,
    mod-eq-sub-mod {n = i + j} {m = n} (omega arith),
    mod-eq_of_lt {n = i + j - n} {m = n} (omega arith),
  )
]

pub around_inj : (n i j k : ℕ) → i < n → j < n → k < n → around n i j ≡ around n i k → j ≡ k
around_inj n i j k hi hj hk e = ground (arith, around_lem n i j hi hj, around_lem n i k hi hk)

pub around-zero : (n i : ℕ) → i < n → around n i 0 ≡ i
around-zero n i h = ground (arith, around_lem n i 0 h)

-- Once round the ring.
pub around_full : (n i : ℕ) → i < n → around n i n ≡ i
around_full n i h = add-mod_right i n ∙ mod-eq_of_lt h

pub around-lt : (n i j : ℕ) → 0 < n → around n i j < n
around-lt n i j h = mod-lt (i + j) h

pub around-suc : (n i j : ℕ) → around n ((i + 1) % n) j ≡ around n i (j + 1)
around-suc n i j = mod-add-mod (i + 1) n j ∙ ap (λ (t : ℕ). t % n) (omega arith)

pub around_next : (n i j : ℕ) → (around n i j + 1) % n ≡ around n i (j + 1)
around_next n i j = mod-add-mod (i + j) n 1 ∙ ap (λ (t : ℕ). t % n) (omega arith)

pub get_or-append_one {ℓ} :
    {A : Type ℓ} (xs : List A) (x d : A) (j : ℕ)
    → get_or (xs ++ (x ∷ [])) j d ≡ (if j == length xs then x else get_or xs j d)
get_or-append_one [] x d zero = refl
get_or-append_one [] x d (suc j) = ground arith
get_or-append_one (y ∷ xs) x d zero = ground arith
get_or-append_one (y ∷ xs) x d (suc j) = ground (arith, get_or-append_one xs x d j)

pub get_or_outside {ℓ} :
    {A : Type ℓ} (xs : List A) (d : A) (j : ℕ) → length xs ≤ j → get_or xs j d ≡ d
get_or_outside [] d j h = refl
get_or_outside (x ∷ xs) d zero h = absurd (omega arith)
get_or_outside (x ∷ xs) d (suc j) h = get_or_outside xs d j (omega arith)

module _ {A : Type 0} ⦃s : Slot A⦄ where
  -- No element of the queue is `Empty`.
  abbrev pub NoEmpty : List A → Type 0
  NoEmpty q = (j : ℕ) → j < length q → get_or q j s.empty ≢ s.empty

  -- The slots from the read index on hold `q`, and the rest hold `Empty`. `exponent` makes the
  -- size a power of two that fits `size_t`.
  pub record Holds (r : Ring A) (q : List A) : Type 0 where
    pub exponent : ℕ
    pub bounds : (1 ≤ exponent) × (exponent ≤ 63)
    pub sized : r.size ≡ 2 ^ exponent
    pub masked : r.mask ≡ r.size - 1
    pub slots : length r.buf ≡ r.size
    pub read_in : r.read_index < r.size
    pub write_at : r.write_index ≡ around r.size r.read_index (length q)
    pub room : length q ≤ r.size
    pub full : NoEmpty q
    pub content :
        (j : ℕ) → j < r.size → slot_at r (around r.size r.read_index j) ≡ get_or q j s.empty

  module _ {r : Ring A} {q : List A} (h : Holds r q) where
    -- Both indices are inside the array, and adding 1 to an index does not wrap.
    pub in_bounds :
        (r.write_index < length r.buf)
        × (r.read_index < length r.buf)
        × (1 < r.size)
        × (r.size < 2 ^ 64)
    in_bounds = omega (
      arith,
      around-lt r.size r.read_index (length q),
      h.sized,
      pow-le-pow_right {n = 2} (omega arith) {i = 1} {j = h.exponent} h.bounds.0,
      pow-le-pow_right {n = 2} (omega arith) {i = h.exponent} {j = 63} h.bounds.1,
    )

    -- The mask takes an index one slot on.
    pub next_index : (i : ℕ) → i < r.size → bit_and (u64 (i + 1)) r.mask ≡ (i + 1) % r.size
    next_index i lt =
        ap₂ bit_and (mod-eq_of_lt (omega (arith, in_bounds)))
          (h.masked ∙ ap (λ (t : ℕ). t - 1) h.sized)
        ∙ bit_and-low_mask h.exponent (i + 1)
        ∙ ap (λ (t : ℕ). (i + 1) % t) (sym h.sized)

    pub read_slot : slot_at r r.read_index ≡ get_or q 0 s.empty
    read_slot =
        ap (slot_at r) (sym (around-zero r.size r.read_index h.read_in))
        ∙ h.content 0 (omega (arith, in_bounds))

    -- The slot under the write index is free exactly while the queue is shorter than the array.
    pub write_free : length q < r.size → slot_at r r.write_index ≡ s.empty
    write_free lt =
        ap (slot_at r) h.write_at
        ∙ h.content (length q) lt
        ∙ get_or_outside q s.empty (length q) (omega arith)

    pub write_taken : length q ≡ r.size → slot_at r r.write_index ≢ s.empty
    write_taken e free =
        h.full 0 (omega (arith, in_bounds)) (sym read_slot ∙ ap (slot_at r) (sym met) ∙ free)
      where
        met : r.write_index ≡ r.read_index
        met =
            h.write_at
            ∙ ap (around r.size r.read_index) e
            ∙ around_full r.size r.read_index h.read_in

  pub NoEmpty-append : (q : List A) (x : A) → NoEmpty q → x ≢ s.empty → NoEmpty (q ++ (x ∷ []))
  NoEmpty-append q x full ne j lt bad =
      ground (arith, full j, get_or-append_one q x s.empty j, length-append q (x ∷ []))
