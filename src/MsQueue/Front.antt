-- ===== src/MsQueue/Front.antt =====
-- The front of an MSQueue, and the queue after it was taken.
use libni.Base.{
  ℕ, suc, ◌≡◌, ◌≢◌, ◌⊎◌, sym, ap, ◌∙◌, Bool, List, [], ◌∷◌, Option, none, some, update,
  if◌then◌else◌,
}
use libni.Chain.{
  Apart, Chain, last_address, before_last, first_of, rest_of, Apart-last, Apart-before_last,
  Chain-update, first_node,
}
use libni.TaggedPtr.{tag}
use libni.TaggedPtr.Laws.{Fits}
use libni.TaggedPtr.Atomic.{single_word, store}
use libni.MsQueue.{Node, MsQueue, after, pop}
use libni.MsQueue.Inv.{pointer, address, address-store, Holds, Settled, Lagging}

-- The turns in which the exchange fails spuriously.
unfoldable pub spurious : List Bool → ℕ
spurious [] = 0
spurious (fail ∷ ts) = if fail then suc (spurious ts) else spurious ts

module _ {A : Type 0} where
  -- The queue without its first node, with `m_head` at the one behind it.
  abbrev pub shifted : ℕ → MsQueue A → MsQueue A
  shifted next q = record q {
    m_head = store (after next (pointer q.m_head)) q.m_head;
    heap = update q.heap (address q.m_head) none;
  }

  module _ {q : MsQueue A} {e : ℕ × A} {p : List (ℕ × A)} (h : Holds q (e ∷ p)) where
    -- The dummy node of a queue that is not empty, and the node behind it.
    pub front :
        (d : Node A) × (n : Node A) × (q.heap (address q.m_head) ≡ some d)
        × (address d.next ≡ e.0)
        × (q.heap e.0 ≡ some n)
        × (n.value ≡ e.1)
        × (e.0 ≢ 0)
        × Apart (address q.m_head) (e ∷ p)
    unfolding Chain
    front =
        let (d, here, held, leads, ne, apart, more) = h.chain in
        let (n, there, holds) = first_node _ _ q.heap e.0 e.1 p more in
        (d, n, here, leads, there, holds, ne, apart)

    pub shifted-Holds : (v : ℕ) → v ≡ e.0 → Fits v → Holds (shifted v q) p
    unfolding Chain Apart
    shifted-Holds v same fits =
        let (d, here, held, leads, ne, apart, more) = h.chain in
        let at = address-store v (pointer q.m_head) q.m_head fits ∙ same in
        record {
          first = e.1;
          head_address = λ z. ne (sym at ∙ z);
          chain =
              rw at
                (Chain-update _ _ q.heap (address q.m_head) none e.0 e.1 p apart.0 apart.1 more);
        }

    -- `m_tail` stays where it was, at the last node or one behind it.
    pub shifted-Settled : (v : ℕ) → v ≡ e.0 → Fits v → Settled q (e ∷ p) → Settled (shifted v q) p
    unfolding last_address
    shifted-Settled v same fits at =
        at
        ∙ ap (λ (a : ℕ). last_address a p)
            (sym (address-store v (pointer q.m_head) q.m_head fits ∙ same))

  pub Settled-apart :
      {q : MsQueue A} {e : ℕ × A} {p : List (ℕ × A)}
      → Holds q (e ∷ p)
      → Settled q (e ∷ p)
      → address q.m_head ≢ address q.m_tail
  unfolding last_address Apart
  Settled-apart {q} {e} {p} h at same =
      let (d, n, here, leads, there, held, ne, apart) = front h in
      Apart-last (address q.m_head) e.0 p apart.0 apart.1 (same ∙ at)

  module _ {q : MsQueue A} {e f : ℕ × A} {p : List (ℕ × A)} (h : Holds q (e ∷ f ∷ p)) where
    pub Lagging-apart : Lagging q (e ∷ f ∷ p) → address q.m_head ≢ address q.m_tail
    unfolding before_last Apart
    Lagging-apart at same =
        let (d, n, here, leads, there, held, ne, apart) = front h in
        Apart-before_last (address q.m_head) e.0 f p apart.0 apart.1 (same ∙ at)

    pub shifted-Lagging :
        (v : ℕ) → v ≡ e.0 → Fits v → Lagging q (e ∷ f ∷ p) → Lagging (shifted v q) (f ∷ p)
    unfolding before_last
    shifted-Lagging v same fits at =
        at
        ∙ ap (λ (a : ℕ). before_last a f p)
            (sym (address-store v (pointer q.m_head) q.m_head fits ∙ same))

  -- What `pop` reports beside the element, and the heap that it leaves.
  unfoldable pub state_of : MsQueue A → List (ℕ × A) → ℕ
  state_of q [] = tag (pointer q.m_tail)
  state_of q (e ∷ p) = tag (pointer q.m_head)

  unfoldable pub freed : MsQueue A → List (ℕ × A) → ℕ → Option (Node A)
  freed q [] = q.heap
  freed q (e ∷ p) = update q.heap (address q.m_head) none

  abbrev pub Pops : List Bool → MsQueue A → List (ℕ × A) → Type 0
  Pops ts q p =
      (q' : MsQueue A) × (pop ts q ≡ some (first_of p, state_of q p, q'))
      × Holds q' (rest_of p)
      × (Settled q' (rest_of p) ⊎ Lagging q' (rest_of p))
      × (q'.heap ≡ freed q p)
