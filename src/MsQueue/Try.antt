-- ===== src/MsQueue/Try.antt =====
-- MSQueue::try_push and MSQueue::try_pop: one attempt, if the state is the one that is given.
use libni.Base.{
  ℕ, ◌≡◌, ◌≢◌, ◌⊎◌, refl, sym, ◌∙◌, Bool, true, false, ◌&&◌, List, [], ◌∷◌, ◌++◌, none, some, ◌>>=◌,
  update_ne, ◌==◌, ==_eq, ==_ne, if◌then◌else◌, if_true, if_false, Bool-cases, inl, inr,
}
use libni.Chain.{last_address, before-ne-last, fresh-ne}
use libni.TaggedPtr.{tag}
use libni.TaggedPtr.Laws.{Fits}
use libni.TaggedPtr.Atomic.{single_word, compare_exchange_weak}
use libni.MsQueue.{MsQueue, after, node_of, tail_state, try_push}
use libni.MsQueue.Inv.{
  pointer, address, value-Fits, exchange_hit, address-store, Holds, Settled, Lagging,
}
use libni.MsQueue.PushLoop.{linked, linked-Holds, linked-tail, tail_node}
use libni.MsQueue.Push.{Lagging-node, grown, ready}
use libni.MsQueue.Pop.{caught_up}

module _ {A : Type 0} where
  pub caught_up-Holds :
      {q : MsQueue A} {p : List (ℕ × A)} (v : ℕ) → Holds q p → Holds (caught_up v q) p
  caught_up-Holds v h = record { first = h.first; head_address = h.head_address; chain = h.chain }

  -- The attempt of `try_push` is made if the state is that of the queue.
  try_push-Settled :
      {q : MsQueue A} {p : List (ℕ × A)} (node : ℕ) (x : A) (s : ℕ)
      → Holds q p
      → Settled q p
      → node ≢ 0
      → Fits node
      → q.heap node ≡ none
      → (tag (pointer q.m_tail) == s) ≡ true
      → (q' : MsQueue A) × (try_push node x s q ≡ some (true, q'))
        × Holds q' (p ++ ((node, x) ∷ []))
        × (Settled q' (p ++ ((node, x) ∷ [])) ⊎ Lagging q' (p ++ ((node, x) ∷ [])))
  unfolding try_push compare_exchange_weak
  try_push-Settled {q} {p} node x s h at ne fits free same =
      let (t, here, ends) = tail_node h at in
      let r = ready node x h ne fits free in
      let here' =
        update_ne q.heap node (some (node_of x)) (address q.m_tail)
          (fresh-ne q.heap node (address q.m_tail) t free here)
        ∙ here in
      (
        linked false node t (grown node x q),
        if_true _ same
            ∙ (rw (here, ◌>>=◌)
                (if_true _ (==_eq _ 0 ends)
                  ∙ (rw (exchange_hit (after node (pointer t.next)) t.next) refl))),
        linked-Holds false (grown node x q) p node x t r at here',
        linked-tail false (grown node x q) p node x t fits at,
      )

  try_push_other :
      {q : MsQueue A} (node : ℕ) (x : A) (s : ℕ)
      → (tag (pointer q.m_tail) == s) ≡ false
      → try_push node x s q ≡ some (false, q)
  unfolding try_push
  try_push_other node x s other = if_false _ other

  -- An attempt that finds `m_tail` behind the last node moves it on.
  try_push-Lagging :
      {q : MsQueue A} {e : ℕ × A} {p : List (ℕ × A)} (node : ℕ) (x : A) (s : ℕ)
      → Holds q (e ∷ p)
      → Lagging q (e ∷ p)
      → (tag (pointer q.m_tail) == s) ≡ true
      → (q' : MsQueue A) × (try_push node x s q ≡ some (false, q'))
        × Holds q' (e ∷ p)
        × Settled q' (e ∷ p)
  unfolding try_push
  try_push-Lagging {q} node x s h at same =
      let (t, here, leads, ne) = Lagging-node h at in
      (
        caught_up (address t.next) q,
        if_true _ same
            ∙ (rw (here, ◌>>=◌)
                (if_false _ (==_ne _ 0 ne)
                  ∙ (rw (exchange_hit (after (address t.next) (pointer q.m_tail)) q.m_tail) refl))),
        caught_up-Holds (address t.next) h,
        address-store (address t.next) (pointer q.m_tail) q.m_tail (value-Fits _) ∙ leads,
      )

  -- `try_push` never waits and never uses a pointer to nothing. It adds the element at the end and
  -- returns true exactly if the state given is the tag of `m_tail` and `m_tail` is at the last node.
  -- Otherwise it returns false and the elements stay as they are.
  pub try_push_lem :
      {q : MsQueue A} (p : List (ℕ × A)) (node : ℕ) (x : A) (s : ℕ)
      → Holds q p
      → Settled q p ⊎ Lagging q p
      → node ≢ 0
      → Fits node
      → q.heap node ≡ none
      → (b : Bool) × (q' : MsQueue A) × (try_push node x s q ≡ some (b, q'))
        × (b ≡ ((tail_state q == s) && (address q.m_tail == last_address (address q.m_head) p)))
        × Holds q' (if b then p ++ ((node, x) ∷ []) else p)
        × (Settled q' (if b then p ++ ((node, x) ∷ []) else p)
            ⊎ Lagging q' (if b then p ++ ((node, x) ∷ []) else p))
  unfolding tail_state last_address
  try_push_lem {q} p node x s h at ne fits free = elim (Bool-cases (tag (pointer q.m_tail) == s)) [
    | inr other ↦ (false, q, try_push_other node x s other, rw other refl, h, at)
    | inl same ↦ attempt p h at same
  ]
    where
      attempt :
          (p : List (ℕ × A))
          → Holds q p
          → Settled q p ⊎ Lagging q p
          → (tag (pointer q.m_tail) == s) ≡ true
          → (b : Bool) × (q' : MsQueue A) × (try_push node x s q ≡ some (b, q'))
            × (b ≡ ((tail_state q == s) && (address q.m_tail == last_address (address q.m_head) p)))
            × Holds q' (if b then p ++ ((node, x) ∷ []) else p)
            × (Settled q' (if b then p ++ ((node, x) ∷ []) else p)
                ⊎ Lagging q' (if b then p ++ ((node, x) ∷ []) else p))
      attempt p h (inl at) same =
          let (q', e, held, tail) = try_push-Settled node x s h at ne fits free same in
          (true, q', e, rw (same, ==_eq _ _ at) refl, held, tail)
      attempt [] h (inr at) same = absurd at
      attempt (d ∷ p) h (inr at) same =
          let (q', e, held, tail) = try_push-Lagging node x s h at same in
          (
            false,
            q',
            e,
            rw
                (
                  same,
                  ==_ne _ _ (λ z.
                      before-ne-last _ _ q.heap (address q.m_head) h.first d p h.chain
                        (sym at ∙ z)),
                )
                refl,
            held,
            inl tail,
          )
