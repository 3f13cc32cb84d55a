-- ===== src/Spsc/LinkedList/Laws.antt =====
-- The queue that a linked list holds, and what its methods do to it.
use libni.Base.{
  ℕ, ◌≡◌, ◌≢◌, refl, sym, ap, ◌∙◌, arith, Bool, true, false, List, [], ◌∷◌, ◌++◌, Option, some,
  none, ◌>>=◌, update, update_self, update_ne, ltb, length, subst, ◌==◌, ==_ne, if◌then◌else◌,
  if_false, if_true, ==_eq,
}
use libni.Spsc.Ring
use libni.Spsc.Ring.{Ring, pointer_slot}
use libni.Spsc.Ring.Inv.{Holds}
use libni.Spsc.Ring.Refine.{push_refines, pop_refines}
use libni.Spsc.Queue
use libni.Spsc.Queue.{answered, queued}
use libni.Chain.{
  Apart, Chain, Chain-update, Chain-fresh, Chain-link, first_node, last_node, last_address,
  last-append, first_of, rest_of,
}
use libni.Spsc.LinkedList.{Node, LinkedList, link, push, pop}

module _ {A : Type 0} where
  -- The nodes as a chain.
  abbrev pub Nodes : (ℕ → Option (Node A)) → ℕ → A → List (ℕ × A) → Type 0
  Nodes = Chain (λ n. n.element) (λ n. n.next)

  -- The list holds the elements of `q`, oldest first, and its cache the addresses `cached`.
  pub record Contains (l : LinkedList A) (cached : List ℕ) (q : List (ℕ × A)) : Type 0 where
    pub first : A
    pub head_address : l.m_head ≢ 0
    pub chain : Nodes l.heap l.m_head first q
    pub tail : l.m_tail ≡ last_address l.m_head q
    pub cache : Holds l.m_cache cached

  -- While the cache is empty, `push` adds the element at the end, in the new node.
  pub push_new :
      {l : LinkedList A} {q : List (ℕ × A)} (address : ℕ) (x : A)
      → Contains l [] q
      → address ≢ 0
      → l.heap address ≡ none
      → (l' : LinkedList A) × (push address x l ≡ some l')
        × Contains l' [] (q ++ ((address, x) ∷ []))
  unfolding push link Queue.pop
  push_new {l} {q} p x c ne free =
      let (answer, holds) = pop_refines c.cache in
      let (n, ns) = Chain-fresh _ _ l.heap p l.m_head c.first q free c.chain in
      let new : Node A = record { element = x; next = 0 } in
      let kept = Chain-update _ _ l.heap p (some new) l.m_head c.first q n ns c.chain in
      let (old, at, ends) = last_node _ _ (update l.heap p (some new)) l.m_head c.first q kept in
      (
        record {
          m_head = l.m_head;
          m_tail = p;
          m_cache = (Ring.pop l.m_cache).1;
          heap =
              update (update l.heap p (some new)) (last_address l.m_head q)
                (some (record old { next = p }));
        },
        rw answer (rw c.tail (rw (at, ◌>>=◌) refl)),
        record {
          first = c.first;
          head_address = c.head_address;
          chain =
              Chain-link (λ t. t.element) (λ t. t.next) (update l.heap p (some new)) l.m_head
                c.first q p x old (record old { next = p }) kept ne n ns
                (new, update_self l.heap p (some new), refl, refl) at refl refl;
          tail = sym (last-append l.m_head q (p, x));
          cache = holds;
        },
      )

  -- While the cache holds a node that stands and is not the last of the list, `push` links that
  -- node as it is: it becomes the last one, the node that was last leads to it, and it keeps the
  -- element and the `next` that it held. `push` of another element gives the same list, so the
  -- element is lost.
  pub push_forgets :
      {l : LinkedList A} {n : ℕ} {cached : List ℕ} {q : List (ℕ × A)} (address : ℕ) (x y : A)
      (old : Node A)
      → Contains l (n ∷ cached) q
      → n ≢ l.m_tail
      → l.heap n ≡ some old
      → (l' : LinkedList A) × (last : Node A) × (push address x l ≡ some l')
        × (push address y l ≡ some l')
        × (l'.m_head ≡ l.m_head)
        × (l'.m_tail ≡ n)
        × (l.heap l.m_tail ≡ some last)
        × (l'.heap l.m_tail ≡ some (record last { next = n }))
        × (l'.heap n ≡ some old)
        × Holds l'.m_cache cached
  unfolding push link Queue.pop
  push_forgets {l} {n} {cached} {q} address x y old c other stands =
      let (answer, holds) = pop_refines c.cache in
      let (last, at_last, ends) = last_node _ _ l.heap l.m_head c.first q c.chain in
      let at : l.heap l.m_tail ≡ some last = ap l.heap c.tail ∙ at_last in
      let cached_node = ap (λ (t : ℕ). t == 0) answer ∙ ==_ne n 0 (c.cache.full 0 (omega arith)) in
      let pushes : (z : A) → push address z l ≡ some (after last) = (λ z.
        if_false _ cached_node
        ∙ ap (λ t. link t (record l { m_cache = (Ring.pop l.m_cache).1 })) answer
        ∙ rw (at, ◌>>=◌) refl) in
      (
        after last,
        last,
        pushes x,
        pushes y,
        refl,
        refl,
        at,
        update_self l.heap l.m_tail (some (record last { next = n })),
        update_ne l.heap l.m_tail _ n (λ e. other (sym e)) ∙ stands,
        holds,
      )
    where
      after : Node A → LinkedList A
      after last = record l {
        m_tail = n;
        m_cache = (Ring.pop l.m_cache).1;
        heap = update l.heap l.m_tail (some (record last { next = n }));
      }

  -- The cache and the heap after a `pop` of a list that holds `q`: the node that was the head is
  -- cached, or freed when the cache is full.
  unfoldable pub cached_after : LinkedList A → List ℕ → List (ℕ × A) → List ℕ
  cached_after l cached [] = cached
  cached_after l cached (e ∷ q) =
      if ltb (length cached) l.m_cache.size then cached ++ (l.m_head ∷ []) else cached

  unfoldable pub heap_after : LinkedList A → List ℕ → List (ℕ × A) → ℕ → Option (Node A)
  heap_after l cached [] = l.heap
  heap_after l cached (e ∷ q) =
      if ltb (length cached) l.m_cache.size then l.heap else update l.heap l.m_head none

  -- `pop` never uses a pointer to nothing. It returns the oldest element and leaves a list that
  -- holds the others; on an empty list it returns `Empty`, and changes neither the cache nor the
  -- heap. The node that was the head goes to the end of the cache, and the heap stays as it was, or
  -- it is deleted when the cache is full, and nothing else.
  pub pop_lem :
      {l : LinkedList A} {cached : List ℕ} (q : List (ℕ × A))
      → Contains l cached q
      → (l' : LinkedList A) × (pop l ≡ some (first_of q, l'))
        × Contains l' (cached_after l cached q) (rest_of q)
        × (l'.heap ≡ heap_after l cached q)
  unfolding pop first_of rest_of Chain Apart last_address cached_after heap_after Queue.push
  pop_lem {l} {cached} [] c = (l, rw (c.chain.1, ◌>>=◌) (if_true _ (==_eq _ 0 c.chain.3)), c, refl)
  pop_lem {l} {cached} (e ∷ q) c =
      let (answer, holds) = push_refines l.m_head c.cache c.head_address in
      let (n, at, held, leads, ne, apart, more) = c.chain in
      let (node, there, value) = first_node _ _ l.heap e.0 e.1 q more in
      let kept = answer ∙ answered l.m_cache.size l.m_head cached in
      (
        record l {
          m_head = e.0;
          m_cache = (Ring.push l.m_head l.m_cache).1;
          heap = if (Ring.push l.m_head l.m_cache).0 then l.heap else update l.heap l.m_head none;
        },
        rw (at, ◌>>=◌) (rw leads (if_false _ (==_ne e.0 0 ne) ∙ rw (there, ◌>>=◌) (rw value refl))),
        record {
          first = e.1;
          head_address = ne;
          chain = after (Ring.push l.m_head l.m_cache).0;
          tail = c.tail;
          cache =
              subst (Holds (Ring.push l.m_head l.m_cache).1) (queued l.m_cache.size l.m_head cached)
                holds;
        },
        ap (λ (b : Bool). if b then l.heap else update l.heap l.m_head none) kept,
      )
    where
      after : (b : Bool) → Nodes (if b then l.heap else update l.heap l.m_head none) e.0 e.1 q
      after true = c.chain.6
      after false =
          Chain-update _ _ l.heap l.m_head none e.0 e.1 q c.chain.5.0 c.chain.5.1 c.chain.6

  -- The same, where what becomes of the old head is of no interest.
  pub pop_keeps :
      {l : LinkedList A} {cached : List ℕ} (q : List (ℕ × A))
      → Contains l cached q
      → (l' : LinkedList A) × (cached' : List ℕ) × (pop l ≡ some (first_of q, l'))
        × Contains l' cached' (rest_of q)
  pop_keeps {l} {cached} q c =
      let (l', pops, holds, same) = pop_lem q c in (l', cached_after l cached q, pops, holds)
