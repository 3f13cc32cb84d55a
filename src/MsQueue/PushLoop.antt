-- ===== src/MsQueue/PushLoop.antt =====
-- The turns of MSQueue::push that find `m_tail` at the last node.
use libni.Base.{
  ℕ, suc, ◌+◌, ◌<◌, ◌≡◌, ◌≢◌, ◌⊎◌, refl, sym, ap, subst, ◌∙◌, arith, Bool, true, false, List, [],
  ◌∷◌, ◌++◌, length, some, ◌>>=◌, update, ==_eq, if◌then◌else◌, if_true, if_false, Bool-cases, inl,
  inr, ◌||◌,
}
use libni.Chain.{
  Apart, last_address, before_last, last_node, Chain-link, last-append, before-append, update_same,
}
use libni.TaggedPtr.{TaggedPtr, value}
use libni.TaggedPtr.Laws.{Fits}
use libni.TaggedPtr.Atomic.{single_word, store, differ, compare_exchange_weak}
use libni.MsQueue.{Node, MsQueue, after, node_of, again, pushed, push_turn, push_loop}
use libni.MsQueue.Inv.{
  pointer, address, weak_hit, weak_miss, differ_self, same_pointer, address-store, address-default,
  Holds, Settled, Lagging,
}

-- The turns in which an exchange fails spuriously.
unfoldable pub spurious : List (Bool × Bool) → ℕ
spurious [] = 0
spurious ((fail_next, fail_tail) ∷ ts) =
    if fail_next || fail_tail then suc (spurious ts) else spurious ts

module _ {A : Type 0} where
  -- A queue whose heap holds the new node for `x`, not linked yet.
  pub record Ready (q : MsQueue A) (p : List (ℕ × A)) (node : ℕ) (x : A) : Type 0 where
    pub holds : Holds q p
    pub nonnull : node ≢ 0
    pub fits : Fits node
    pub outside : (node ≢ address q.m_head) × Apart node p
    pub stands : q.heap node ≡ some (node_of x)

  -- The queue once `node` is linked behind the node `t`, where `m_tail` points.
  abbrev pub linked : Bool → ℕ → Node A → MsQueue A → MsQueue A
  linked fail node t q = record q {
    m_tail =
        (compare_exchange_weak fail (pointer q.m_tail) (after node (pointer q.m_tail)) q.m_tail).2;
    heap =
        update q.heap (address q.m_tail)
          (some (record t { next = store (after node (pointer t.next)) t.next }));
  }

  pub linked-tail :
      (fail : Bool) (q : MsQueue A) (p : List (ℕ × A)) (node : ℕ) (x : A) (t : Node A)
      → Fits node
      → Settled q p
      → Settled (linked fail node t q) (p ++ ((node, x) ∷ []))
        ⊎ Lagging (linked fail node t q) (p ++ ((node, x) ∷ []))
  unfolding last_address before_last
  linked-tail false q p node x t fits at = inl (
      rw (weak_hit (after node (pointer q.m_tail)) q.m_tail) (
        address-store node (pointer q.m_tail) q.m_tail fits
        ∙ sym (last-append (address q.m_head) p (node, x))))
  linked-tail true q [] node x t fits at =
      inr (rw (weak_miss (after node (pointer q.m_tail)) q.m_tail) at)
  linked-tail true q (d ∷ p) node x t fits at = inr (
      rw (weak_miss (after node (pointer q.m_tail)) q.m_tail)
        (at ∙ sym (before-append (address q.m_head) d p (node, x))))

  pub linked-Holds :
      (fail : Bool) (q : MsQueue A) (p : List (ℕ × A)) (node : ℕ) (x : A) (t : Node A)
      → Ready q p node x
      → Settled q p
      → q.heap (address q.m_tail) ≡ some t
      → Holds (linked fail node t q) (p ++ ((node, x) ∷ []))
  linked-Holds fail q p node x t r at here = record {
    first = r.holds.first;
    head_address = r.holds.head_address;
    chain = rw at (
        Chain-link _ _ q.heap (address q.m_head) r.holds.first p node x t
          (record t { next = store (after node (pointer t.next)) t.next }) r.holds.chain r.nonnull
          r.outside.0 r.outside.1 (node_of x, r.stands, refl, address-default)
          (ap q.heap (sym at) ∙ here) refl (address-store node (pointer t.next) t.next r.fits));
  }

  -- How the loop ends.
  abbrev pub Pushes : List (Bool × Bool) → ℕ → A → TaggedPtr → MsQueue A → List (ℕ × A) → Type 0
  Pushes ts node x old q p =
      (q' : MsQueue A) × (push_loop ts node old q ≡ some q')
      × Holds q' (p ++ ((node, x) ∷ []))
      × (Settled q' (p ++ ((node, x) ∷ [])) ⊎ Lagging q' (p ++ ((node, x) ∷ [])))

  pub tail_node :
      {q : MsQueue A} {p : List (ℕ × A)}
      → Holds q p
      → Settled q p
      → (t : Node A) × (q.heap (address q.m_tail) ≡ some t) × (address t.next ≡ 0)
  tail_node {q} {p} h at =
      let (t, here, ends) = last_node _ _ q.heap (address q.m_head) h.first p h.chain in
      (t, ap q.heap at ∙ here, ends)

  -- A turn that finds `m_tail` at the last node links the new one, unless its exchange fails.
  turn_links :
      (fail : Bool) (node : ℕ) (q : MsQueue A) (t : Node A)
      → q.heap (address q.m_tail) ≡ some t
      → address t.next ≡ 0
      → push_turn false fail node (pointer q.m_tail) q ≡ some (pushed (linked fail node t q))
  unfolding push_turn
  turn_links fail node q t here ends =
      rw (here, ◌>>=◌)
        (if_false _ (differ_self q.m_tail)
          ∙ if_true _ (==_eq _ 0 ends)
          ∙ (rw (weak_hit (after node (pointer t.next)) t.next) refl))

  turn_fails :
      (fail : Bool) (node : ℕ) (q : MsQueue A) (t : Node A)
      → q.heap (address q.m_tail) ≡ some t
      → address t.next ≡ 0
      → push_turn true fail node (pointer q.m_tail) q ≡ some (again (pointer q.m_tail) q)
  unfolding push_turn
  turn_fails fail node q t here ends =
      rw (here, ◌>>=◌)
        (if_false _ (differ_self q.m_tail)
          ∙ if_true _ (==_eq _ 0 ends)
          ∙ (rw (weak_miss (after node (pointer t.next)) t.next) (
              ap (λ h. some (again (pointer q.m_tail) (record q { heap = h })))
                (update_same q.heap (address q.m_tail) (some t) here))))

  -- A turn that finds a stale `old_tail` loads it again.
  turn_reloads :
      (fail_next fail_tail : Bool) (node : ℕ) (old : TaggedPtr) (q : MsQueue A) (t : Node A)
      → q.heap (value old) ≡ some t
      → differ q.m_tail old ≡ true
      → push_turn fail_next fail_tail node old q ≡ some (again (pointer q.m_tail) q)
  unfolding push_turn
  turn_reloads fail_next fail_tail node old q t here stale = rw (here, ◌>>=◌) (if_true _ stale)

  pub loop-Settled :
      (ts : List (Bool × Bool)) (q : MsQueue A) (p : List (ℕ × A)) (node : ℕ) (x : A)
      → Ready q p node x
      → Settled q p
      → spurious ts < length ts
      → Pushes ts node x (pointer q.m_tail) q p
  unfolding spurious push_loop
  loop-Settled [] q p node x r at lt = absurd (omega arith)
  loop-Settled ((true, fail) ∷ ts) q p node x r at lt =
      let (t, here, ends) = tail_node r.holds at in
      let (q', e, held, tail) = loop-Settled ts q p node x r at (omega arith) in
      (q', rw (turn_fails fail node q t here ends, ◌>>=◌) e, held, tail)
  loop-Settled ((false, fail) ∷ ts) q p node x r at lt =
      let (t, here, ends) = tail_node r.holds at in
      (
        linked fail node t q,
        rw (turn_links fail node q t here ends, ◌>>=◌) refl,
        linked-Holds fail q p node x t r at here,
        linked-tail fail q p node x t r.fits at,
      )

  pub loop_stale :
      (ts : List (Bool × Bool)) (q : MsQueue A) (p : List (ℕ × A)) (node : ℕ) (x : A)
      (old : TaggedPtr) (t : Node A)
      → Ready q p node x
      → Settled q p
      → q.heap (value old) ≡ some t
      → spurious ts + 1 < length ts
      → Pushes ts node x old q p
  unfolding spurious push_loop
  loop_stale [] q p node x old t r at here lt = absurd (omega arith)
  loop_stale ((fail_next, fail_tail) ∷ ts) q p node x old t r at here lt =
      elim (Bool-cases (differ q.m_tail old)) [
        | inl stale ↦
            let (q', e, held, tail) = loop-Settled ts q p node x r at (ground arith) in
            (q', rw (turn_reloads fail_next fail_tail node old q t here stale, ◌>>=◌) e, held, tail)
        | inr fresh ↦
            subst (λ o. Pushes ((fail_next, fail_tail) ∷ ts) node x o q p)
              (same_pointer q.m_tail old fresh)
              (loop-Settled ((fail_next, fail_tail) ∷ ts) q p node x r at (ground arith))
      ]
