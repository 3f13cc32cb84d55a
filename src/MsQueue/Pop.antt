-- ===== src/MsQueue/Pop.antt =====
-- MSQueue::pop as a whole.
use mathlib.Core.Bool.{false≢true}
use libni.Base.{
  ℕ, ◌+◌, ◌<◌, ◌≤◌, ◌≡◌, ◌≢◌, ◌⊎◌, ◌↔◌, refl, sym, ap, ap₂, ◌∙◌, arith, Bool, true, false, ◌&&◌,
  List, [], ◌∷◌, length, some, ◌>>=◌, ◌==◌, ==_eq, ==_ne, if_true, if_false, inl, inr,
}
use libni.Chain.{Apart, Chain, last_address, before_last, first_of, rest_of}
use libni.TaggedPtr.{tag}
use libni.TaggedPtr.Laws.{Fits}
use libni.TaggedPtr.Atomic.{single_word, store}
use libni.MsQueue.{MsQueue, after, retry, found_empty, popped, pop_turn, pop, empty}
use libni.MsQueue.Inv.{
  pointer, address, value-Fits, weak_hit, weak_miss, differ_self, address-store, Holds, Settled,
  Lagging,
}
use libni.MsQueue.Front.{
  spurious, shifted, front, shifted-Holds, shifted-Settled, Settled-apart, Lagging-apart,
  shifted-Lagging, state_of, freed, Pops,
}

module _ {A : Type 0} where
  turn_empty :
      (fail : Bool) (q : MsQueue A)
      → Holds q []
      → Settled q []
      → pop_turn fail q ≡ some (found_empty (tag (pointer q.m_tail)))
  unfolding pop_turn Chain last_address
  turn_empty fail q h at =
      let (d, here, held, ends) = h.chain in
      rw (here, ◌>>=◌)
        (if_false _ (differ_self q.m_head)
          ∙ if_true _ (==_eq _ _ (sym at))
          ∙ ap some (if_true _ (==_eq _ 0 ends)))

  -- A turn that finds both pointers at the dummy node, of a queue with one element.
  abbrev pub caught_up : ℕ → MsQueue A → MsQueue A
  caught_up last q = record q { m_tail = store (after last (pointer q.m_tail)) q.m_tail }

  module _ {q : MsQueue A} {e : ℕ × A} {p : List (ℕ × A)} (h : Holds q (e ∷ p)) where
    turn_helps :
        address q.m_head ≡ address q.m_tail
        → pop_turn false q ≡ some (retry (caught_up (address (front h).0.next) q))
    unfolding pop_turn
    turn_helps same =
        let (d, n, here, leads, there, held, ne, apart) = front h in
        rw (here, ◌>>=◌)
          (if_false _ (differ_self q.m_head)
            ∙ if_true _ (==_eq _ _ same)
            ∙ (rw (weak_hit (after (address d.next) (pointer q.m_tail)) q.m_tail)
                (ap some (if_false _ (==_ne _ 0 (λ z. ne (sym leads ∙ z)))))))

    turn_helps_not : address q.m_head ≡ address q.m_tail → pop_turn true q ≡ some (retry q)
    unfolding pop_turn
    turn_helps_not same =
        let (d, n, here, leads, there, held, ne, apart) = front h in
        rw (here, ◌>>=◌)
          (if_false _ (differ_self q.m_head)
            ∙ if_true _ (==_eq _ _ same)
            ∙ (rw (weak_miss (after (address d.next) (pointer q.m_tail)) q.m_tail)
                (ap some (if_false _ (==_ne _ 0 (λ z. ne (sym leads ∙ z)))))))

    turn_pops :
        address q.m_head ≢ address q.m_tail
        → pop_turn false q
          ≡ some (popped e.1 (tag (pointer q.m_head)) (shifted (address (front h).0.next) q))
    unfolding pop_turn
    turn_pops other =
        let (d, n, here, leads, there, held, ne, apart) = front h in
        rw (here, ◌>>=◌)
          (if_false _ (differ_self q.m_head)
            ∙ if_false _ (==_ne _ _ other)
            ∙ (rw (ap q.heap leads ∙ there, ◌>>=◌)
                (rw (weak_hit (after (address d.next) (pointer q.m_head)) q.m_head)
                  (rw held refl))))

    turn_misses : address q.m_head ≢ address q.m_tail → pop_turn true q ≡ some (retry q)
    unfolding pop_turn
    turn_misses other =
        let (d, n, here, leads, there, held, ne, apart) = front h in
        rw (here, ◌>>=◌)
          (if_false _ (differ_self q.m_head)
            ∙ if_false _ (==_ne _ _ other)
            ∙ (rw (ap q.heap leads ∙ there, ◌>>=◌)
                (rw (weak_miss (after (address d.next) (pointer q.m_head)) q.m_head) refl)))

  pop_empty :
      (ts : List Bool) (q : MsQueue A)
      → Holds q []
      → Settled q []
      → spurious ts < length ts
      → Pops ts q []
  unfolding pop first_of rest_of state_of freed spurious
  pop_empty [] q h at lt = absurd (omega arith)
  pop_empty (fail ∷ ts) q h at lt = (q, rw (turn_empty fail q h at, ◌>>=◌) refl, h, inl at, refl)

  -- With the two pointers apart, one turn is enough.
  pop_apart :
      (ts : List Bool) (q : MsQueue A) (e : ℕ × A) (p : List (ℕ × A))
      → (h : Holds q (e ∷ p)) → address q.m_head ≢ address q.m_tail
      → ((v : ℕ) → v ≡ e.0 → Fits v → Settled (shifted v q) p ⊎ Lagging (shifted v q) p)
      → spurious ts < length ts
      → Pops ts q (e ∷ p)
  unfolding pop first_of rest_of state_of freed spurious
  pop_apart [] q e p h other at lt = absurd (omega arith)
  pop_apart (false ∷ ts) q e p h other at lt =
      let (d, n, here, leads, there, held, ne, apart) = front h in
      (
        shifted (address d.next) q,
        rw (turn_pops h other, ◌>>=◌) refl,
        shifted-Holds h (address d.next) leads (value-Fits _),
        at (address d.next) leads (value-Fits _),
        refl,
      )
  pop_apart (true ∷ ts) q e p h other at lt =
      let (q', eq, held, tail, heap) = pop_apart ts q e p h other at (omega arith) in
      (q', rw (turn_misses h other, ◌>>=◌) eq, held, tail, heap)

  pop-Settled :
      (ts : List Bool) (q : MsQueue A) (e : ℕ × A) (p : List (ℕ × A))
      → Holds q (e ∷ p)
      → Settled q (e ∷ p)
      → spurious ts < length ts
      → Pops ts q (e ∷ p)
  pop-Settled ts q e p h at lt =
      pop_apart ts q e p h (Settled-apart h at)
        (λ v same fits. inl (shifted-Settled h v same fits at)) lt

  pop-Lagging :
      (ts : List Bool) (q : MsQueue A) (e : ℕ × A) (p : List (ℕ × A))
      → Holds q (e ∷ p)
      → Lagging q (e ∷ p)
      → spurious ts + 1 < length ts
      → Pops ts q (e ∷ p)
  unfolding before_last Apart pop spurious first_of rest_of state_of freed last_address
  pop-Lagging ts q e (f ∷ p) h at lt =
      pop_apart ts q e (f ∷ p) h (Lagging-apart h at)
        (λ v same fits. inr (shifted-Lagging h v same fits at)) (omega arith)
  pop-Lagging [] q e [] h at lt = absurd (omega arith)
  pop-Lagging (true ∷ ts) q e [] h at lt =
      let (q', eq, held, tail, heap) = pop-Lagging ts q e [] h at (omega arith) in
      (q', rw (turn_helps_not h (sym at), ◌>>=◌) eq, held, tail, heap)
  pop-Lagging (false ∷ ts) q e [] h at lt =
      let (d, n, here, leads, there, held, ne, apart) = front h in
      let (q', eq, held', tail, heap) =
        pop-Settled ts (caught_up (address d.next) q) e []
          (record { first = h.first; head_address = h.head_address; chain = h.chain })
          (address-store (address d.next) (pointer q.m_tail) q.m_tail (value-Fits _) ∙ leads)
          (omega arith) in
      (q', rw (turn_helps h (sym at), ◌>>=◌) eq, held', tail, heap)

  -- `pop` returns within two turns more than those in which its exchange fails spuriously. It takes
  -- the oldest element out and frees the node that was the first one, and nothing else; on an empty
  -- queue it reports so and changes no node. It never uses a pointer to nothing. The state that it
  -- reports is the tag that `m_head` had, or that of `m_tail` on an empty queue.
  pub pop_oldest :
      {q : MsQueue A} (p : List (ℕ × A)) (turns : List Bool)
      → Holds q p
      → Settled q p ⊎ Lagging q p
      → spurious turns + 2 ≤ length turns
      → (q' : MsQueue A) × (pop turns q ≡ some (first_of p, state_of q p, q'))
        × Holds q' (rest_of p)
        × (Settled q' (rest_of p) ⊎ Lagging q' (rest_of p))
        × (q'.heap ≡ freed q p)
  pop_oldest {q} [] ts h (inl at) enough = pop_empty ts q h at (omega arith)
  pop_oldest [] ts h (inr at) enough = absurd at
  pop_oldest {q} (e ∷ p) ts h (inl at) enough = pop-Settled ts q e p h at (omega arith)
  pop_oldest {q} (e ∷ p) ts h (inr at) enough = pop-Lagging ts q e p h at (omega arith)

  -- `empty` returns, and answers true exactly on an empty queue.
  pub empty_exactly :
      {q : MsQueue A} (p : List (ℕ × A))
      → Holds q p
      → Settled q p ⊎ Lagging q p
      → (b : Bool) × (empty q ≡ some b) × ((b ≡ true) ↔ (p ≡ []))
  unfolding empty Chain last_address
  empty_exactly {q} [] h (inl at) =
      let (d, here, held, ends) = h.chain in
      (
        true,
        rw (here, ◌>>=◌)
            (if_false _ (differ_self q.m_head)
              ∙ ap some (ap₂ ◌&&◌ (==_eq _ _ (sym at)) (==_eq _ 0 ends))),
        (λ _. refl, λ _. refl),
      )
  empty_exactly [] h (inr at) = absurd at
  empty_exactly {q} (e ∷ p) h at =
      let (d, n, here, leads, there, held, ne, apart) = front h in
      (
        false,
        rw (here, ◌>>=◌)
            (if_false _ (differ_self q.m_head)
              ∙ ap some (
                  neither (address q.m_head == address q.m_tail)
                    (==_ne (address d.next) 0 (λ z. ne (sym leads ∙ z))))),
        (λ f. absurd (false≢true f), λ f. cc),
      )
    where
      neither : (b : Bool) {c : Bool} → c ≡ false → (b && c) ≡ false
      neither true f = f
      neither false f = refl
