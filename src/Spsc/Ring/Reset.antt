-- ===== src/Spsc/Ring/Reset.antt =====
-- The constructor and `reset`: both leave an empty ring.
use native.Mathlib.Nat.{one-le-pow, pow-le-pow_right}
use libni.Base.{
  ℕ, zero, suc, ◌+◌, ◌-◌, ◌^◌, ◌≤◌, ◌<◌, ◌≡◌, ◌≢◌, refl, sym, ap, ◌∙◌, arith, ◌↔◌, true, List, [],
  ℕ_discrete, dec_le, ==_ne, if◌then◌else◌, length, get_or, set, length-set, get_or-set_self,
  get_or-set_ne, bit_and, Bool-cases, inl, inr,
}
use libni.Base.Bits.{power_of_two, bit_and-pow-pred}
use libni.Spsc.Ring.{
  Filler, each, bytes, Slot, Ring, assert_failed, system_error, created, fill_from, clear,
  is_power_of_two, create, reset,
}
use libni.Spsc.Ring.Inv.{around, around-zero, around-lt, Holds}

module _ {A : Type 0} where
  length-fill_from : (n i : ℕ) (x : A) (xs : List A) → length (fill_from n i x xs) ≡ length xs
  unfolding fill_from
  length-fill_from zero i x xs = refl
  length-fill_from (suc n) i x xs = length-fill_from n (i + 1) x (set xs i x) ∙ length-set xs i x

  -- Slots that already hold `x`, or that the loop still reaches, hold `x` at the end.
  get_or-fill_from :
      (n i : ℕ) (x d : A) (xs : List A) (j : ℕ)
      → j < length xs
      → i + n ≡ length xs
      → (j < i → get_or xs j d ≡ x)
      → get_or (fill_from n i x xs) j d ≡ x
  unfolding fill_from
  get_or-fill_from zero i x d xs j lj e done = done (omega arith)
  get_or-fill_from (suc n) i x d xs j lj e done =
      get_or-fill_from n (i + 1) x d (set xs i x) j (omega (arith, length-set xs i x))
        (omega (arith, length-set xs i x))
        λ before. elim (ℕ_discrete i j) [
          | yes same ↦
              ap (λ (t : ℕ). get_or (set xs i x) t d) (sym same)
              ∙ get_or-set_self xs i x d (omega arith)
          | no other ↦ get_or-set_ne xs i j x d other ∙ done (omega arith)
        ]

module _ {A : Type 0} ⦃s : Slot A⦄ where
  -- A ring with sound sizes, both indices at 0, whose slots hold anything.
  pub record IsBlank (r : Ring A) : Type 0 where
    pub exponent : ℕ
    pub bounds : (1 ≤ exponent) × (exponent ≤ 63)
    pub sized : r.size ≡ 2 ^ exponent
    pub masked : r.mask ≡ r.size - 1
    pub slots : length r.buf ≡ r.size
    pub at_start : (r.read_index ≡ 0) × (r.write_index ≡ 0)

  filled-Holds :
      (r : Ring A) (x : A)
      → IsBlank r
      → x ≡ s.empty
      → Holds (record r { buf = fill_from r.size 0 x r.buf }) []
  filled-Holds r x b e = record {
    exponent = b.exponent;
    bounds = b.bounds;
    sized = b.sized;
    masked = b.masked;
    slots = length-fill_from r.size 0 x r.buf ∙ b.slots;
    read_in = omega (arith, positive);
    write_at = omega (arith, around-zero r.size r.read_index (omega (arith, positive)));
    room = omega arith;
    full = λ j lt. absurd (omega arith);
    content = λ j lt.
        get_or-fill_from r.size 0 x s.empty r.buf (around r.size r.read_index j)
          (omega (arith, around-lt r.size r.read_index j positive, b.slots))
          (omega (arith, b.slots)) (λ before. absurd (omega arith))
        ∙ e;
  }
    where
      positive : 0 < r.size
      positive = omega (arith, one-le-pow b.exponent 2 (omega arith), b.sized)

  clear-Holds : (f : Filler) (r : Ring A) → s.filler ≡ f → IsBlank r → Holds (clear f r) []
  unfolding clear
  clear-Holds each r e b = filled-Holds r s.empty b refl
  clear-Holds (bytes v) r e b = filled-Holds r (s.splat v) b (s.fills v e)

  pub size-clear : (f : Filler) (r : Ring A) → (clear f r).size ≡ r.size
  unfolding clear
  size-clear each r = refl
  size-clear (bytes v) r = refl

  -- `reset` empties a ring, whatever queue it holds.
  pub reset-Holds : {r : Ring A} {q : List A} → Holds r q → Holds (reset r) []
  unfolding reset
  reset-Holds {r} h =
      clear-Holds s.filler (record r { read_index = 0; write_index = 0 }) refl
        (record {
          exponent = h.exponent;
          bounds = h.bounds;
          sized = h.sized;
          masked = h.masked;
          slots = h.slots;
          at_start = (refl, refl);
        })

power : (n : ℕ) → is_power_of_two n ≡ true → (k : ℕ) × (1 ≤ k) × (n ≡ 2 ^ k)
unfolding is_power_of_two
power n h = let (k, e) = power_of_two n (ground arith) (ground arith) in (k, positive k e, e)
  where
    positive : (k : ℕ) → n ≡ 2 ^ k → 1 ≤ k
    positive zero e = ground arith
    positive (suc k) e = omega arith

test : (n k : ℕ) → 1 ≤ k → n ≡ 2 ^ k → is_power_of_two n ≡ true
unfolding is_power_of_two
test n k le e = ground (arith, ap (λ (t : ℕ). bit_and t (t - 1)) e, bit_and-pow-pred k, large)
  where
    large : 2 ≤ 2 ^ k
    large = pow-le-pow_right {n = 2} (omega arith) {i = 1} {j = k} le

-- 2^64 is more than 2^63.
small_exponent : (k : ℕ) → 2 ^ k ≤ 2 ^ 63 → k ≤ 63
small_exponent k h = elim (dec_le k 63) [
  | yes le ↦ le
  | no gt ↦
      absurd (omega (arith, pow-le-pow_right {n = 2} (omega arith) {i = 64} {j = k} (omega arith)))
]

-- The constructor's `assert` accepts exactly the powers of two above 1.
pub is_power_of_two_iff :
    (size : ℕ) → (is_power_of_two size ≡ true) ↔ ((k : ℕ) × (1 ≤ k) × (size ≡ 2 ^ k))
unfolding is_power_of_two
is_power_of_two_iff size = (power size, λ p. test size p.0 p.1 p.2)

-- With a size that is a power of two above 1 and at most 2^63, and that many slots allocated, the
-- constructor returns an empty ring of that size.
pub create-Holds :
    {A : Type 0} ⦃s : Slot A⦄ (size : ℕ) (memory : List A)
    → is_power_of_two size ≡ true
    → size ≤ 2 ^ 63
    → length memory ≡ size
    → (r : Ring A) × (create 0 size memory ≡ created r) × (r.size ≡ size) × Holds r []
unfolding create
create-Holds ⦃s⦄ size memory e le l =
    let (k, pos, p) = power size e in
    (
      clear s.filler
          (record { write_index = 0; read_index = 0; size = size; mask = size - 1; buf = memory }),
      rw e refl,
      size-clear s.filler _,
      clear-Holds s.filler _ refl (record {
        exponent = k;
        bounds = (pos, small_exponent k (omega arith));
        sized = p;
        masked = refl;
        slots = l;
        at_start = (refl, refl);
      }),
    )

-- On a size that is no power of two above 1 the constructor fails its `assert`, and on a failed
-- allocation it throws the code.
pub create_fails :
    {A : Type 0} ⦃s : Slot A⦄ (rc size : ℕ) (memory : List A)
    → rc ≢ 0
    → create rc size memory ≡ (if is_power_of_two size then system_error rc else assert_failed)
unfolding create
create_fails rc size memory ne = elim (Bool-cases (is_power_of_two size)) [
  | inl e ↦ rw (e, ==_ne rc 0 ne) refl
  | inr e ↦ rw e refl
]
