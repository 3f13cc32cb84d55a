-- ===== src/MsQueue/Threads/Linked.antt =====
-- What threads in MSQueue::push do together: every call links its node once.
use libni.Base.{
  ℕ, ◌+◌, ◌<◌, ◌≡◌, refl, ap, arith, List, [], ◌∷◌, ◌++◌, some, update, weigh, weigh-append, sum_to,
  sum_to-update, sum_to_zero,
}
use libni.Chain.Among.{Among, Among-node}
use libni.TaggedPtr.{value}
use libni.MsQueue.{Node, MsQueue}
use libni.MsQueue.Inv.{address, Holds}
use libni.MsQueue.Threads.{
  Pushing, idle, loading, loaded, read_next, checked, linked, System, Step, new_node, load_tail,
  load_next, same_tail, other_tail, link, link_fails, help, finish, Reach, start, later,
}
use libni.MsQueue.Threads.Inv.{In, Sound, Inv}
use libni.MsQueue.Threads.Link.{Reach-Inv}

module _ {A : Type 0} where
  -- The weight of an element that is linked by a call that has not returned.
  abbrev pub flying : (A → ℕ) → Pushing A → ℕ
  flying w (linked node x old) = w x
  flying w idle = 0
  flying w (loading node x) = 0
  flying w (loaded node x old) = 0
  flying w (read_next node x old next) = 0
  flying w (checked node x old next) = 0

  -- What was linked, against what was returned and what is in flight.
  abbrev pub Balanced : ℕ → (A → ℕ) → System A → Type 0
  Balanced n w t =
      weigh (λ (e : ℕ × A). w e.1) t.pushed
      ≡ weigh w t.returned + sum_to n (λ i. flying w (t.thread i))

  -- An access that neither links nor returns.
  quiet-Balanced :
      (n i : ℕ) (w : A → ℕ) (t : System A) (c : Pushing A)
      → i < n
      → flying w (t.thread i) ≡ 0
      → flying w c ≡ 0
      → Balanced n w t
      → weigh (λ (e : ℕ × A). w e.1) t.pushed
        ≡ weigh w t.returned + sum_to n (λ j. flying w (update t.thread i c j))
  quiet-Balanced n i w t c lt before after b =
      omega (arith, sum_to-update n i (flying w) t.thread c lt)

  Step-Balanced :
      {n i : ℕ} (w : A → ℕ) {t u : System A} → Step n i t u → Balanced n w t → Balanced n w u
  unfolding weigh
  Step-Balanced {n} {i} w {t} (new_node node x lt e nonnull fits free) b =
      quiet-Balanced n i w t _ lt (ap (flying w) e) refl b
  Step-Balanced {n} {i} w {t} (load_tail node x lt e) b =
      quiet-Balanced n i w t _ lt (ap (flying w) e) refl b
  Step-Balanced {n} {i} w {t} (load_next node x old tail lt e here) b =
      quiet-Balanced n i w t _ lt (ap (flying w) e) refl b
  Step-Balanced {n} {i} w {t} (same_tail node x old next lt e same) b =
      quiet-Balanced n i w t _ lt (ap (flying w) e) refl b
  Step-Balanced {n} {i} w {t} (other_tail node x old next lt e other) b =
      quiet-Balanced n i w t _ lt (ap (flying w) e) refl b
  Step-Balanced {n} {i} w {t} (link fail node x old next tail lt e null here won) b = omega (
    arith,
    weigh-append (λ (e : ℕ × A). w e.1) t.pushed ((node, x) ∷ []),
    sum_to-update n i (flying w) t.thread (linked node x old) lt,
    ap (flying w) e,
  )
  Step-Balanced {n} {i} w {t} (link_fails fail node x old next tail lt e null here lost) b =
      quiet-Balanced n i w t _ lt (ap (flying w) e) refl b
  Step-Balanced {n} {i} w {t} (help fail node x old next lt e ne) b =
      quiet-Balanced n i w t _ lt (ap (flying w) e) refl b
  Step-Balanced {n} {i} w {t} (finish fail node x old lt e) b = omega (
    arith,
    weigh-append w t.returned (x ∷ []),
    sum_to-update n i (flying w) t.thread idle lt,
    ap (flying w) e,
  )

  Reach-Balanced : {n : ℕ} {q : MsQueue A} (w : A → ℕ) {t : System A} → Reach n q t → Balanced n w t
  unfolding weigh
  Reach-Balanced {n} w start = omega (arith, sum_to_zero n (λ i. 0) (λ j below. refl))
  Reach-Balanced w (later i r st) = Step-Balanced w st (Reach-Balanced w r)

  -- There is a node where a thread will read one.
  abbrev pub Readable : MsQueue A → Pushing A → Type 0
  Readable q (loaded node x old) = (n : Node A) × (q.heap (value old) ≡ some n)
  Readable q (checked node x old next) = (n : Node A) × (q.heap (value old) ≡ some n)
  Readable q idle = Unit
  Readable q (loading node x) = Unit
  Readable q (read_next node x old next) = Unit
  Readable q (linked node x old) = Unit

  pub readable :
      {p : List (ℕ × A)} {t : System A}
      → Inv p t
      → (c : Pushing A) → Sound t.queue (p ++ t.pushed) c
      → Readable t.queue c
  readable {p} {t} inv c ok = go c ok
    where
      stands : (a : ℕ) → In t.queue (p ++ t.pushed) a → (n : Node A) × (t.queue.heap a ≡ some n)
      stands a m =
          let (n, here, ends, leads) =
            Among-node (λ n. n.value) (λ n. address n.next) t.queue.heap a (address t.queue.m_head)
              inv.holds.first (p ++ t.pushed) inv.holds.chain m in
          (n, here)

      go : (c : Pushing A) → Sound t.queue (p ++ t.pushed) c → Readable t.queue c
      go idle ok = tt
      go (loading node x) ok = tt
      go (loaded node x old) ok = stands (value old) ok.1
      go (read_next node x old next) ok = tt
      go (checked node x old next) ok = stands (value old) ok.1
      go (linked node x old) ok = tt

  -- From a queue that holds p with m_tail at one of its nodes, in every state that n threads in
  -- push reach, in any interleaving and whatever exchanges fail spuriously: the queue holds p and
  -- then the nodes that were linked, in the order in which they were; no thread is about to read
  -- through a pointer to nothing; and whatever the weights of the elements, those linked weigh as
  -- much as those of the calls that have returned and those of the calls that have linked theirs
  -- and not returned, so that each call links its element once before it returns.
  pub pushes_link_once :
      {n : ℕ} {q : MsQueue A} {p : List (ℕ × A)} {t : System A}
      → Holds q p
      → Among (address q.m_tail) (address q.m_head) p
      → Reach n q t
      → Holds t.queue (p ++ t.pushed)
        × ((i : ℕ) → Readable t.queue (t.thread i))
        × ((w : A → ℕ)
            → weigh (λ (e : ℕ × A). w e.1) t.pushed
              ≡ weigh w t.returned + sum_to n (λ i. flying w (t.thread i)))
  pushes_link_once {t} h m r =
      let inv = Reach-Inv h m r in
      (inv.holds, λ i. readable inv (t.thread i) (inv.sound i), λ w. Reach-Balanced w r)
