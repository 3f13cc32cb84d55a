-- ===== src/MsQueue/Inv.antt =====
-- The queue that an MSQueue holds, and the accesses of its atomic pointers.
use native.Mathlib.Nat.{mod-lt}
use libni.Base.{
  ℕ, ◌+◌, ◌≡◌, ◌≢◌, refl, ap, arith, true, false, not, List, [], ◌∷◌, Option, ==_refl, if_true,
}
use libni.Chain.{Chain, last_address, before_last}
use libni.TaggedPtr
use libni.TaggedPtr.{TaggedPtr, value, tag, of_value_tag}
use libni.TaggedPtr.Laws.{Fits, value_lem, value-of_value_tag}
use libni.TaggedPtr.Atomic
use libni.TaggedPtr.Atomic.{
  AtomicTaggedPtr, single_word, load, store, equal, differ, compare_exchange_strong,
  compare_exchange_weak,
}
use libni.MsQueue.{Node, MsQueue, after}

-- What `load` reads, as a tagged pointer.
abbrev pub pointer : AtomicTaggedPtr → TaggedPtr
pointer a = load a

abbrev pub address : AtomicTaggedPtr → ℕ
address a = value (pointer a)

pub value-Fits : (p : TaggedPtr) → Fits (value p)
value-Fits p = rw (value_lem p) (mod-lt p.raw_value (omega arith))

pub exchange_hit :
    (d : TaggedPtr) (a : AtomicTaggedPtr)
    → compare_exchange_strong (pointer a) d a ≡ (true, pointer a, store d a)
unfolding compare_exchange_strong load store TaggedPtr.of_raw
exchange_hit d a = if_true _ (==_refl a.m_raw_value)

pub weak_hit :
    (d : TaggedPtr) (a : AtomicTaggedPtr)
    → compare_exchange_weak false (pointer a) d a ≡ (true, pointer a, store d a)
unfolding compare_exchange_weak
weak_hit d a = exchange_hit d a

pub weak_miss :
    (d : TaggedPtr) (a : AtomicTaggedPtr)
    → compare_exchange_weak true (pointer a) d a ≡ (false, pointer a, a)
unfolding compare_exchange_weak load
weak_miss d a = refl

pub differ_self : (a : AtomicTaggedPtr) → differ a (pointer a) ≡ false
unfolding differ equal load TaggedPtr.equal
differ_self a = ap not (==_refl _)

pub same_pointer : (a : AtomicTaggedPtr) (p : TaggedPtr) → differ a p ≡ false → pointer a ≡ p
unfolding differ equal load TaggedPtr.equal TaggedPtr.of_raw
same_pointer a p e = ap TaggedPtr.of_raw same
  where
    same : a.m_raw_value ≡ p.raw_value
    same = ground arith

pub address-store :
    (v : ℕ) (p : TaggedPtr) (a : AtomicTaggedPtr) → Fits v → address (store (after v p) a) ≡ v
unfolding load store TaggedPtr.of_raw
address-store v p a h = (value-of_value_tag v (tag p + 1) h).1

pub address-default : address Atomic.default ≡ 0
unfolding load Atomic.default TaggedPtr.of_raw value
address-default = refl

module _ {A : Type 0} where
  -- The nodes as a chain; the first node is the dummy of the algorithm.
  abbrev pub Nodes : (ℕ → Option (Node A)) → ℕ → A → List (ℕ × A) → Type 0
  Nodes = Chain (λ n. n.value) (λ n. address n.next)

  -- The queue holds the elements of `p`, oldest first.
  pub record Holds (q : MsQueue A) (p : List (ℕ × A)) : Type 0 where
    pub first : A
    pub head_address : address q.m_head ≢ 0
    pub chain : Nodes q.heap (address q.m_head) first p

  -- `m_tail` is at the last node, or one node behind it, as a `push` leaves it when its second
  -- exchange fails.
  abbrev pub Settled : MsQueue A → List (ℕ × A) → Type 0
  Settled q p = address q.m_tail ≡ last_address (address q.m_head) p

  abbrev pub Lagging : MsQueue A → List (ℕ × A) → Type 0
  Lagging q [] = ⊥
  Lagging q (e ∷ p) = address q.m_tail ≡ before_last (address q.m_head) e p
