-- ===== src/MsQueue/Threads/Weak.antt =====
-- What a weak exchange leaves behind, whether it succeeds or not.
use libni.Base.{
  ◌≡◌, ◌⊎◌, refl, ap, Bool, true, false, ◌==◌, if_true, if_false, ==_iff, Bool-cases, inl, inr,
}
use libni.TaggedPtr
use libni.TaggedPtr.{TaggedPtr, value}
use libni.TaggedPtr.Atomic.{
  AtomicTaggedPtr, single_word, load, store, compare_exchange_strong, compare_exchange_weak,
}
use libni.MsQueue.Inv.{pointer}

strong_hit :
    (e d : TaggedPtr) (a : AtomicTaggedPtr)
    → (a.m_raw_value == e.raw_value) ≡ true
    → compare_exchange_strong e d a ≡ (true, e, store d a)
unfolding compare_exchange_strong store
strong_hit e d a same = if_true _ same

strong_miss :
    (e d : TaggedPtr) (a : AtomicTaggedPtr)
    → (a.m_raw_value == e.raw_value) ≡ false
    → compare_exchange_strong e d a ≡ (false, pointer a, a)
unfolding compare_exchange_strong load
strong_miss e d a other = if_false _ other

abbrev result : Bool × TaggedPtr × AtomicTaggedPtr → Bool
result r = r.0

-- A weak exchange that succeeds found the word that it expected.
pub weak_won :
    (fail : Bool) (e d : TaggedPtr) (a : AtomicTaggedPtr)
    → (compare_exchange_weak fail e d a).0 ≡ true
    → (pointer a ≡ e) × ((compare_exchange_weak fail e d a).2 ≡ store d a)
unfolding compare_exchange_weak load TaggedPtr.of_raw
weak_won true e d a won = cc won
weak_won false e d a won = elim (Bool-cases (a.m_raw_value == e.raw_value)) [
  | inl same ↦ (
    ap TaggedPtr.of_raw ((==_iff _ _).0 same),
    ap (λ (r : Bool × TaggedPtr × AtomicTaggedPtr). r.2) (strong_hit e d a same),
  )
  | inr other ↦
      let lost = ap (λ (r : Bool × TaggedPtr × AtomicTaggedPtr). r.0) (strong_miss e d a other) in
      absurd (cc (won, lost))
]

-- Whether it succeeds or not: what is stored, and what is left in `expected`.
pub weak_cases :
    (fail : Bool) (e d : TaggedPtr) (a : AtomicTaggedPtr)
    → (((compare_exchange_weak fail e d a).2 ≡ store d a)
        × ((compare_exchange_weak fail e d a).1 ≡ e))
      ⊎ (((compare_exchange_weak fail e d a).2 ≡ a)
          × ((compare_exchange_weak fail e d a).1 ≡ pointer a))
unfolding compare_exchange_weak load
weak_cases true e d a = inr (refl, refl)
weak_cases false e d a = elim (Bool-cases (a.m_raw_value == e.raw_value)) [
  | inl same ↦
      let r = strong_hit e d a same in
      inl (
        ap (λ (r : Bool × TaggedPtr × AtomicTaggedPtr). r.2) r,
        ap (λ (r : Bool × TaggedPtr × AtomicTaggedPtr). r.1) r,
      )
  | inr other ↦
      let r = strong_miss e d a other in
      inr (
        ap (λ (r : Bool × TaggedPtr × AtomicTaggedPtr). r.2) r,
        ap (λ (r : Bool × TaggedPtr × AtomicTaggedPtr). r.1) r,
      )
]
