-- ===== src/Spsc/Ring.antt =====
-- include/ni/cds/spsc_ring_buffer.hh: class SPSCRingBuffer, one call at a time.
-- A method that changes the buffer returns it beside its result. A slot read out of range counts as
-- `Empty` and a write there changes nothing; `Ring.Inv` shows that neither happens.
pub mod Inv
pub mod Refine
pub mod Reset
pub mod Run
use mathlib.Core.Logic.{ite}
use libni.Base.{
  arith, ℕ, zero, suc, ◌+◌, ◌-◌, ◌*◌, ◌%◌, ◌≡◌, refl, Bool, true, false, not, ◌&&◌, List,
  ℕ_discrete, bit_and, ltb, ◌==◌, if◌then◌else◌, get_or, set, u64,
}

-- `SPSCRingBufferFiller`: an `Empty` that is written slot by slot, or one whose bytes are all
-- `value`, which `memset` writes. The specialisation for `<T, Empty, T, T>` is chosen for no type
-- but `void`.
pub data Filler : Type 0 where
  each : Filler
  bytes : (value : ℕ) → Filler

-- The template parameters: `T` with its `==`, `Empty` and `Fill`. `splat value` is the `T` whose
-- bytes are all `value`.
pub record Slot (A : Type 0) : Type 0 where
  pub same : Discrete A
  pub empty : A
  pub filler : Filler
  pub splat : ℕ → A
  pub fills : (v : ℕ) → filler ≡ bytes v → splat v ≡ empty

-- A pointer of 64 bits, `nullptr` and `std::integral_constant<int, 0>`: `SPSCPtrRingBuffer`.
abbrev pub splat_pointer : ℕ → ℕ
splat_pointer v = v % 256 * 0x0101010101010101

pub pointer_fills : (v : ℕ) → bytes 0 ≡ bytes v → splat_pointer v ≡ 0
pointer_fills v e = ground arith

instance abbrev pub pointer_slot : Slot ℕ
pointer_slot = record {
  same = ℕ_discrete;
  empty = 0;
  filler = bytes 0;
  splat = splat_pointer;
  fills = pointer_fills;
}

pub record Ring (A : Type 0) : Type 0 where
  pub write_index : ℕ
  pub read_index : ℕ
  pub size : ℕ
  pub mask : ℕ
  pub buf : List A

-- How the constructor ends; `error` carries the code that posix_memalign returned.
pub data Created (A : Type 0) : Type 0 where
  assert_failed : Created A
  system_error : (rc : ℕ) → Created A
  created : Ring A → Created A

-- `n` slots from index `i` on are overwritten by `x`.
fill_from {ℓ} : {A : Type ℓ} → ℕ → ℕ → A → List A → List A
fill_from zero i x xs = xs
fill_from (suc n) i x xs = fill_from n (i + 1) x (set xs i x)

-- the argument of the constructor's `assert`
pub is_power_of_two : ℕ → Bool
is_power_of_two size = ltb 1 size && bit_and size (size - 1) == 0

module _ {A : Type 0} ⦃s : Slot A⦄ where
  -- Both overloads of `clear`. The array that `clear(Unit, false)` constructs first is overwritten.
  unfoldable pub clear : Filler → Ring A → Ring A
  unfolding fill_from
  clear each r = record r { buf = fill_from r.size 0 s.empty r.buf }
  clear (bytes v) r = record r { buf = fill_from r.size 0 (s.splat v) r.buf }

  -- `SPSCRingBuffer(size)`, where posix_memalign returns `rc` and the slots `memory`
  unfoldable pub create : (rc size : ℕ) → (memory : List A) → Created A
  create rc size memory =
      if not (is_power_of_two size)
      then assert_failed
      else if not (rc == 0)
      then system_error rc
      else created (
          clear s.filler (record {
            write_index = 0;
            read_index = 0;
            size = size;
            mask = size - 1;
            buf = memory;
          }))

  abbrev pub slot_at : Ring A → ℕ → A
  slot_at r i = get_or r.buf i s.empty

  unfoldable pub empty : Ring A → Bool
  empty r = ite (s.same (slot_at r r.read_index) s.empty) true false

  unfoldable pub available : Ring A → Bool
  available r = ite (s.same (slot_at r r.write_index) s.empty) true false

  -- The sum of the second branch is below 2^64, since `w < r`.
  unfoldable pub len : Ring A → ℕ
  unfolding empty
  len r =
      if ltb r.read_index r.write_index
      then r.write_index - r.read_index
      else if ltb r.write_index r.read_index
      then r.size - r.read_index + r.write_index
      else ite (s.same (slot_at r r.write_index) s.empty) 0 r.size

  unfoldable pub push : A → Ring A → Bool × Ring A
  unfolding available
  push x r = if not (available r) then (false, r) else (
    true,
    record r {
      buf = set r.buf r.write_index x;
      write_index = bit_and (u64 (r.write_index + 1)) r.mask;
    },
  )

  unfoldable pub pop : Ring A → A × Ring A
  pop r =
      let element = slot_at r r.read_index in
      ite (s.same element s.empty) (s.empty, r)
        (
          element,
          record r {
            buf = set r.buf r.read_index s.empty;
            read_index = bit_and (u64 (r.read_index + 1)) r.mask;
          },
        )

  unfoldable pub top : Ring A → A
  top r = slot_at r r.read_index

  unfoldable pub reset : Ring A → Ring A
  unfolding clear
  reset r = clear s.filler (record r { read_index = 0; write_index = 0 })
