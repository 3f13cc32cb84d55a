-- ===== src/MsQueue/Poppers/Inv.antt =====
-- What holds in every state that threads in MSQueue::pop reach: the nodes form a chain from the
-- head on, and what a thread has loaded is the head or was it.
use libni.Base.{ℕ, ◌≡◌, ◌≢◌, List, [], ◌∷◌, ◌++◌, none, some}
use libni.Chain.{Apart}
use libni.TaggedPtr.{TaggedPtr, value}
use libni.TaggedPtr.Atomic.{single_word}
use libni.MsQueue.{Node, MsQueue}
use libni.MsQueue.Inv.{address, pointer, Holds}
use libni.MsQueue.Poppers.{
  Popping, idle, starting, head_loaded, tail_loaded, next_loaded, head_checked, value_read, took,
  System,
}

module _ {A : Type 0} where
  -- The elements of a list of nodes.
  unfoldable pub elements : List (ℕ × A) → List A
  elements [] = []
  elements (e ∷ p) = e.1 ∷ elements p

  -- While `m_head` is still what was loaded, `next` is what stands in the node there.
  abbrev pub Reads : MsQueue A → TaggedPtr → TaggedPtr → Type 0
  Reads q old next =
      pointer q.m_head ≡ old
      → (d : Node A) → q.heap (address q.m_head) ≡ some d
      → pointer d.next ≡ next

  abbrev pub First : List (ℕ × A) → TaggedPtr → A → Type 0
  First [] next x = ⊥
  First (e ∷ p) next x = (value next ≡ e.0) × (x ≡ e.1)

  abbrev pub Sound : MsQueue A → List (ℕ × A) → Popping A → Type 0
  Sound q p idle = Unit
  Sound q p starting = Unit
  Sound q p (head_loaded old) = Apart (value old) p
  Sound q p (tail_loaded old old_tail) = Apart (value old) p
  Sound q p (next_loaded old old_tail next) = Apart (value old) p × Reads q old next
  Sound q p (head_checked old old_tail next) = Apart (value old) p × Reads q old next
  Sound q p (value_read old next x) =
      Apart (value old) p × (pointer q.m_head ≡ old → First p next x)
  Sound q p (took old x) = (value old ≢ address q.m_head) × Apart (value old) p

  -- `p` is what the queue held at first, and `rest` what it holds.
  pub record Inv (p : List (ℕ × A)) (t : System A) : Type 0 where
    pub rest : List (ℕ × A)
    pub holds : Holds t.queue rest
    pub split : elements p ≡ t.taken ++ elements rest
    pub null : t.queue.heap 0 ≡ none
    pub sound : (i : ℕ) → Sound t.queue rest (t.thread i)

  -- What a change of the queue has to keep for a thread that stands still.
  pub map-Sound :
      (q : MsQueue A) (p : List (ℕ × A)) (q' : MsQueue A) (p' : List (ℕ × A)) (c : Popping A)
      → ((a : ℕ) → Apart a p → Apart a p')
      → ((old next : TaggedPtr) → Apart (value old) p → Reads q old next → Reads q' old next)
      → ((old next : TaggedPtr) (x : A)
          → Apart (value old) p
          → (pointer q.m_head ≡ old → First p next x)
          → pointer q'.m_head ≡ old
          → First p' next x)
      → ((a : ℕ) → a ≢ address q.m_head → Apart a p → a ≢ address q'.m_head)
      → Sound q p c
      → Sound q' p' c
  map-Sound q p q' p' idle apart reads first gone ok = tt
  map-Sound q p q' p' starting apart reads first gone ok = tt
  map-Sound q p q' p' (head_loaded old) apart reads first gone ok = apart (value old) ok
  map-Sound q p q' p' (tail_loaded old old_tail) apart reads first gone ok = apart (value old) ok
  map-Sound q p q' p' (next_loaded old old_tail next) apart reads first gone ok =
      (apart (value old) ok.0, reads old next ok.0 ok.1)
  map-Sound q p q' p' (head_checked old old_tail next) apart reads first gone ok =
      (apart (value old) ok.0, reads old next ok.0 ok.1)
  map-Sound q p q' p' (value_read old next x) apart reads first gone ok =
      (apart (value old) ok.0, first old next x ok.0 ok.1)
  map-Sound q p q' p' (took old x) apart reads first gone ok =
      (gone (value old) ok.0 ok.1, apart (value old) ok.1)
