-- ===== src/TaggedPtr/Atomic/Laws.antt =====
-- What one access of an AtomicTaggedPtr does, and how far its tag detects a reused address.
use libni.Base.{ℕ, ◌+◌, ◌%◌, ◌^◌, ◌≡◌, ◌↔◌, refl, ap, ◌∙◌, sym, arith, true, ◌==◌}
use libni.Base.{==_iff}
use libni.TaggedPtr
use libni.TaggedPtr.{TaggedPtr}
use libni.TaggedPtr.Laws.{Fits, of_value_tag_lem}
use libni.TaggedPtr.Atomic.{
  Word, single_word, AtomicTaggedPtr, make, store, load, exchange, compare_exchange_strong, equal,
}

module _ {T : Type 0} ⦃w : Word T⦄ where
  raw_value_inj : (p q : T) → w.raw_value p ≡ w.raw_value q → p ≡ q
  raw_value_inj p q e = sym (w.of_raw-raw_value p) ∙ ap w.of_raw e ∙ w.of_raw-raw_value q

  -- What is stored, by `store` or by `exchange`, is what `load` reads, `exchange` returns what
  -- `load` read before, and the comparison with a stored pointer holds exactly for an equal one.
  pub load_stored :
      (p q : T) (a : AtomicTaggedPtr)
      → (load (store p a) ≡ p)
        × (load (exchange p a).1 ≡ p)
        × ((exchange p a).0 ≡ load a)
        × ((equal (store p a) q ≡ true) ↔ (p ≡ q))
  unfolding load store exchange equal
  load_stored p q a = (
    w.of_raw-raw_value p,
    w.of_raw-raw_value p,
    refl,
    (
      λ e. raw_value_inj p q ((==_iff (w.raw_value p) (w.raw_value q)).0 (sym compared ∙ e)),
      λ e. compared ∙ (==_iff (w.raw_value p) (w.raw_value q)).1 (ap w.raw_value e),
    ),
  )
    where
      compared : w.equal (w.of_raw (w.raw_value p)) q ≡ (w.raw_value p == w.raw_value q)
      compared =
          w.equal_lem (w.of_raw (w.raw_value p)) q
          ∙ ap (λ (n : ℕ). n == w.raw_value q) (w.raw_value-of_raw (w.raw_value p))

-- The tag as an ABA counter. A compare-exchange that expects address `v` with tag `t`, on a cell
-- that holds the same address again after its tag was raised `k` times, succeeds exactly when `k`
-- is a multiple of 2^16.
pub reuse_detected_iff :
    (v t k : ℕ) (d : TaggedPtr)
    → Fits v
    → ((compare_exchange_strong
          (TaggedPtr.of_value_tag v t)
          d
          (make (TaggedPtr.of_value_tag v (t + k)))).0
        ≡ true)
      ↔ (k % 2 ^ 16 ≡ 0)
unfolding compare_exchange_strong make
reuse_detected_iff v t k d h = (
  λ e. ground (arith, of_value_tag_lem v t h, of_value_tag_lem v (t + k) h),
  λ e. ground (arith, of_value_tag_lem v t h, of_value_tag_lem v (t + k) h),
)
