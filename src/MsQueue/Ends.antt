-- ===== src/MsQueue/Ends.antt =====
-- The constructor and the destructor of MSQueue.
use libni.Base.{
  ℕ, suc, ◌≡◌, ◌≢◌, refl, sym, ◌∙◌, arith, List, [], ◌∷◌, length, Option, none, some, ◌>>=◌, update,
  update_self, update_ne, ==_ne, ==_refl,
}
use libni.Chain.{
  Cleared, Apart, Chain, last_address, before_last, Apart-last, Apart-before_last, Chain-update,
  last_node,
}
use libni.TaggedPtr
use libni.TaggedPtr.{TaggedPtr, value, of_value}
use libni.TaggedPtr.Laws.{Fits, value_lem}
use libni.TaggedPtr.Atomic.{single_word, load, store}
use libni.MsQueue.{Node, MsQueue, node_of, create, destroy_from, destroy}
use libni.MsQueue.Inv.{address, address-default, Nodes, Holds, Settled, Lagging}

module _ {A : Type 0} where
  -- A queue that is made is empty, with both pointers at its dummy node.
  pub create_ready :
      (a : ℕ) (x : A) (heap : ℕ → Option (Node A))
      → a ≢ 0
      → Fits a
      → Holds (create a x heap) [] × Settled (create a x heap) []
  unfolding create load store of_value TaggedPtr.of_raw Chain last_address
  create_ready a x heap ne fits = (
    record {
      first = x;
      head_address = λ z. ne (sym at ∙ z);
      chain = rw at (node_of x, update_self heap a (some (node_of x)), refl, address-default);
    },
    refl,
  )
    where
      at : value (of_value a) ≡ a
      at = value_lem (of_value a) ∙ omega arith

  destroy_steps :
      (f a tail : ℕ) (heap : ℕ → Option (Node A)) (n : Node A)
      → a ≢ tail
      → heap a ≡ some n
      → destroy_from (suc f) a tail heap ≡ destroy_from f (address n.next) tail (update heap a none)
  unfolding destroy_from
  destroy_steps f a tail heap n ne here = rw (==_ne a tail ne, destroy_from) (rw (here, ◌>>=◌) refl)

  -- The loop from the node at `a` on, seen at an address `b` that is none of the nodes'.
  frees :
      (heap : ℕ → Option (Node A)) (a : ℕ) (x : A) (p : List (ℕ × A))
      → Nodes heap a x p
      → (heap' : ℕ → Option (Node A)) × (destroy_from (suc (length p)) a (last_address a p) heap
          ≡ some heap')
        × Cleared heap' a p
        × ((b : ℕ) → b ≢ a → Apart b p → heap' b ≡ heap b)
  unfolding destroy_from Chain last_address Cleared Apart
  frees heap a x [] c = (
    update heap a none,
    rw (==_refl a, destroy_from) refl,
    update_self heap a none,
    λ b n ns. update_ne heap a none b (λ s. n (sym s)),
  )
  frees heap a x (e ∷ p) c =
      let (n, here, held, leads, ne, apart, more) = c in
      let rest = Chain-update _ _ heap a none e.0 e.1 p apart.0 apart.1 more in
      let (heap', eq, cleared, kept) = frees (update heap a none) e.0 e.1 p rest in
      (
        heap',
        destroy_steps (length (e ∷ p)) a _ heap n (Apart-last a e.0 p apart.0 apart.1) here
            ∙ rw leads eq,
        (kept a apart.0 apart.1 ∙ update_self heap a none, cleared),
        λ b n ns. kept b ns.0 ns.1 ∙ update_ne heap a none b (λ s. n (sym s)),
      )

  -- With `m_tail` at the last node, the destructor ends after one turn for each element and one
  -- more, has freed every node of the queue and nothing else. `b` is any other address.
  pub destroy_lem :
      {q : MsQueue A} {p : List (ℕ × A)} (b : ℕ)
      → Holds q p
      → Settled q p
      → b ≢ address q.m_head
      → Apart b p
      → (heap : ℕ → Option (Node A)) × (destroy (suc (length p)) q ≡ some heap)
        × Cleared heap (address q.m_head) p
        × (heap b ≡ q.heap b)
  unfolding destroy
  destroy_lem {q} {p} b h at n ns =
      let (heap, eq, cleared, kept) = frees q.heap (address q.m_head) h.first p h.chain in
      (heap, rw at eq, cleared, kept b n ns)

  leaks :
      (heap : ℕ → Option (Node A)) (a : ℕ) (x : A) (e : ℕ × A) (p : List (ℕ × A))
      → Nodes heap a x (e ∷ p)
      → (heap' : ℕ → Option (Node A)) × (destroy_from (suc (length p)) a (before_last a e p) heap
          ≡ some heap')
        × (heap' (last_address e.0 p) ≡ heap (last_address e.0 p))
  unfolding destroy_from Chain last_address before_last Apart
  leaks heap a x e [] c =
      (update heap a none, rw (==_refl a, destroy_from) refl, update_ne heap a none e.0 c.5.0)
  leaks heap a x e (f ∷ p) c =
      let (n, here, held, leads, ne, apart, more) = c in
      let rest = Chain-update _ _ heap a none e.0 e.1 (f ∷ p) apart.0 apart.1 more in
      let (heap', eq, kept) = leaks (update heap a none) e.0 e.1 f p rest in
      (
        heap',
        destroy_steps (length (f ∷ p)) a _ heap n (Apart-before_last a e.0 f p apart.0 apart.1) here
            ∙ rw leads eq,
        kept ∙ update_ne heap a none _ (Apart-last a f.0 p apart.1.0 apart.1.1),
      )

  -- With `m_tail` one node behind, as a `push` may leave it, the destructor ends without freeing the
  -- last node.
  pub destroy_leaks :
      {q : MsQueue A} {e : ℕ × A} {p : List (ℕ × A)}
      → Holds q (e ∷ p)
      → Lagging q (e ∷ p)
      → (heap : ℕ → Option (Node A)) × (n : Node A) × (destroy (suc (length p)) q ≡ some heap)
        × (heap (last_address (address q.m_head) (e ∷ p)) ≡ some n)
  unfolding destroy last_address
  destroy_leaks {q} {e} {p} h at =
      let (heap, eq, kept) = leaks q.heap (address q.m_head) h.first e p h.chain in
      let (n, here, ends) = last_node _ _ q.heap (address q.m_head) h.first (e ∷ p) h.chain in
      (heap, n, rw at eq, kept ∙ here)
