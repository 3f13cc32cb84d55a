-- ===== src/MsQueue/Push.antt =====
-- MSQueue::push while `m_tail` lags, and as a whole.
use libni.Base.{
  ℕ, ◌+◌, ◌<◌, ◌≤◌, ◌≡◌, ◌≢◌, ◌⊎◌, refl, sym, ap, ◌∙◌, arith, Bool, true, false, List, [], ◌∷◌,
  ◌++◌, length, none, some, ◌>>=◌, update, update_self, ==_ne, if_false, inl, inr,
}
use libni.Chain.{last_address, before_node, Chain-update, Chain-fresh}
use libni.TaggedPtr.Laws.{Fits}
use libni.TaggedPtr.Atomic.{single_word, store}
use libni.MsQueue.{Node, MsQueue, after, node_of, again, push_turn, push_loop, push}
use libni.MsQueue.Inv.{
  pointer, address, value-Fits, weak_hit, weak_miss, differ_self, address-store, Holds, Settled,
  Lagging,
}
use libni.MsQueue.PushLoop.{spurious, Pushes, loop-Settled, loop_stale, Ready}

module _ {A : Type 0} where
  -- The queue once a turn has moved `m_tail` on to the last node.
  abbrev pub caught_up : ℕ → MsQueue A → MsQueue A
  caught_up last q = record q { m_tail = store (after last (pointer q.m_tail)) q.m_tail }

  turn_helps :
      (fail_next : Bool) (node : ℕ) (q : MsQueue A) (t : Node A)
      → q.heap (address q.m_tail) ≡ some t
      → address t.next ≢ 0
      → push_turn fail_next false node (pointer q.m_tail) q
        ≡ some (again (pointer q.m_tail) (caught_up (address t.next) q))
  unfolding push_turn
  turn_helps fail_next node q t here ne =
      rw (here, ◌>>=◌)
        (if_false _ (differ_self q.m_tail)
          ∙ if_false _ (==_ne _ 0 ne)
          ∙ (rw (weak_hit (after (address t.next) (pointer q.m_tail)) q.m_tail) refl))

  turn_helps_not :
      (fail_next : Bool) (node : ℕ) (q : MsQueue A) (t : Node A)
      → q.heap (address q.m_tail) ≡ some t
      → address t.next ≢ 0
      → push_turn fail_next true node (pointer q.m_tail) q ≡ some (again (pointer q.m_tail) q)
  unfolding push_turn
  turn_helps_not fail_next node q t here ne =
      rw (here, ◌>>=◌)
        (if_false _ (differ_self q.m_tail)
          ∙ if_false _ (==_ne _ 0 ne)
          ∙ (rw (weak_miss (after (address t.next) (pointer q.m_tail)) q.m_tail) refl))

  -- The node behind which `m_tail` lags.
  pub Lagging-node :
      {q : MsQueue A} {e : ℕ × A} {p : List (ℕ × A)}
      → Holds q (e ∷ p)
      → Lagging q (e ∷ p)
      → (t : Node A) × (q.heap (address q.m_tail) ≡ some t)
        × (address t.next ≡ last_address (address q.m_head) (e ∷ p))
        × (address t.next ≢ 0)
  unfolding last_address
  Lagging-node {q} {e} {p} h at =
      let (t, here, leads, ne) = before_node _ _ q.heap (address q.m_head) h.first e p h.chain in
      (t, ap q.heap at ∙ here, leads, λ z. ne (sym leads ∙ z))

  loop-Lagging :
      (ts : List (Bool × Bool)) (q : MsQueue A) (e : ℕ × A) (p : List (ℕ × A)) (node : ℕ) (x : A)
      → Ready q (e ∷ p) node x
      → Lagging q (e ∷ p)
      → spurious ts + 2 < length ts
      → Pushes ts node x (pointer q.m_tail) q (e ∷ p)
  unfolding spurious push_loop
  loop-Lagging [] q e p node x r at lt = absurd (omega arith)
  loop-Lagging ((fail_next, true) ∷ ts) q e p node x r at lt =
      let (t, here, leads, ne) = Lagging-node r.holds at in
      let (q', e', held, tail) = loop-Lagging ts q e p node x r at (ground arith) in
      (q', rw (turn_helps_not fail_next node q t here ne, ◌>>=◌) e', held, tail)
  loop-Lagging ((fail_next, false) ∷ ts) q e p node x r at lt =
      let (t, here, leads, ne) = Lagging-node r.holds at in
      let (q', e', held, tail) =
        loop_stale ts (caught_up (address t.next) q) (e ∷ p) node x (pointer q.m_tail) t
          (record {
            holds = record {
              first = r.holds.first;
              head_address = r.holds.head_address;
              chain = r.holds.chain;
            };
            nonnull = r.nonnull;
            fits = r.fits;
            outside = r.outside;
            stands = r.stands;
          })
          (address-store (address t.next) (pointer q.m_tail) q.m_tail (value-Fits _) ∙ leads) here
          (ground arith) in
      (q', rw (turn_helps fail_next node q t here ne, ◌>>=◌) e', held, tail)

  -- The queue with a new node in its heap.
  abbrev pub grown : ℕ → A → MsQueue A → MsQueue A
  grown node x q = record q { heap = update q.heap node (some (node_of x)) }

  pub ready :
      {q : MsQueue A} {p : List (ℕ × A)} (node : ℕ) (x : A)
      → Holds q p
      → node ≢ 0
      → Fits node
      → q.heap node ≡ none
      → Ready (grown node x q) p node x
  ready {q} {p} node x h ne fits free =
      let (other, apart) = Chain-fresh _ _ q.heap node (address q.m_head) h.first p free h.chain in
      record {
        holds = record {
          first = h.first;
          head_address = h.head_address;
          chain =
              Chain-update _ _ q.heap node (some (node_of x)) (address q.m_head) h.first p other
                apart h.chain;
        };
        nonnull = ne;
        fits = fits;
        outside = (other, apart);
        stands = update_self q.heap node (some (node_of x));
      }

  -- `push` adds the element at the end and returns true, whether `m_tail` is at the last node or one
  -- behind it, within three turns more than those in which an exchange fails spuriously. It never
  -- uses a pointer to nothing, and leaves `m_tail` at the last node or one behind it.
  pub push_appends :
      {q : MsQueue A} {p : List (ℕ × A)} (turns : List (Bool × Bool)) (node : ℕ) (x : A)
      → Holds q p
      → Settled q p ⊎ Lagging q p
      → node ≢ 0
      → Fits node
      → q.heap node ≡ none
      → spurious turns + 3 ≤ length turns
      → (q' : MsQueue A) × (push turns node x q ≡ some (true, q'))
        × Holds q' (p ++ ((node, x) ∷ []))
        × (Settled q' (p ++ ((node, x) ∷ [])) ⊎ Lagging q' (p ++ ((node, x) ∷ [])))
  unfolding push
  push_appends {q} {p} ts node x h at ne fits free enough =
      let (q', e, held, tail) = pushes p h (ready node x h ne fits free) at in
      (q', rw (e, ◌>>=◌) refl, held, tail)
    where
      pushes :
          (p : List (ℕ × A))
          → Holds q p
          → Ready (grown node x q) p node x
          → Settled q p ⊎ Lagging q p
          → Pushes ts node x (pointer q.m_tail) (grown node x q) p
      pushes p h r (inl at) = loop-Settled ts (grown node x q) p node x r at (omega arith)
      pushes [] h r (inr at) = absurd at
      pushes (e ∷ p) h r (inr at) = loop-Lagging ts (grown node x q) e p node x r at (omega arith)
