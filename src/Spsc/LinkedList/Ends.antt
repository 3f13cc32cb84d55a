-- ===== src/Spsc/LinkedList/Ends.antt =====
-- The loop of SPSCLinkedList's constructor that fills its cache, and its destructor.
use libni.Base.{
  ℕ, zero, suc, ◌+◌, ◌≤◌, ◌≡◌, ◌≢◌, refl, sym, ap, subst, ◌∙◌, arith, List, [], ◌∷◌, ◌++◌,
  append-nil, append_assoc, length, length-append, Option, none, some, ◌>>=◌, update, update_self,
  update_ne, ◌==◌, ==_ne, ==_refl, lt→ltb, if_true, if_false, ℕ_discrete,
}
use libni.Chain.{Cleared, Apart, Chain, last_address, Apart-last, Chain-update, Chain-fresh}
use libni.Spsc.Ring
use libni.Spsc.Ring.{Ring, pointer_slot}
use libni.Spsc.Ring.Inv.{Holds}
use libni.Spsc.Ring.Refine.{push_refines, pop_refines}
use libni.Spsc.Ring.Run.{size-push}
use libni.Spsc.Queue
use libni.Spsc.LinkedList.{Node, LinkedList, fill_cache, clear_cache, free_from, destroy}
use libni.Spsc.LinkedList.Laws.{Nodes, Contains}

-- The cached nodes are none of the list's.
unfoldable pub Outside : {A : Type 0} → (cached : List ℕ) → ℕ → List (ℕ × A) → Type 0
Outside [] a q = Unit
Outside (c ∷ cs) a q = (c ≢ a) × Apart c q × Outside cs a q

unfoldable pub NotCached : ℕ → List ℕ → Type 0
NotCached b [] = Unit
NotCached b (c ∷ cs) = (b ≢ c) × NotCached b cs

module _ {A : Type 0} where
  -- Nothing stands at the addresses of a cache.
  unfoldable pub Emptied : (ℕ → Option (Node A)) → List ℕ → Type 0
  Emptied heap [] = Unit
  Emptied heap (c ∷ cs) = (heap c ≡ none) × Emptied heap cs

  update-none : (heap : ℕ → Option (Node A)) (p b : ℕ) → heap b ≡ none → update heap p none b ≡ none
  update-none heap p b e = elim (ℕ_discrete p b) [
    | yes same ↦ ap (update heap p none) (sym same) ∙ update_self heap p none
    | no other ↦ update_ne heap p none b other ∙ e
  ]

  -- What the first loop does to the cached nodes, to a chain that is outside the cache, and to any
  -- address.
  clears :
      (cached : List ℕ) (cache : Ring ℕ) (heap : ℕ → Option (Node A)) (a : ℕ) (x : A)
      (q : List (ℕ × A)) (f : ℕ)
      → length cached ≤ f
      → Holds cache cached
      → Outside cached a q
      → Nodes heap a x q
      → (heap' : ℕ → Option (Node A)) × (clear_cache (suc f) cache heap ≡ some heap')
        × Nodes heap' a x q
        × Emptied heap' cached
        × ((b : ℕ) → heap b ≡ none → heap' b ≡ none)
        × ((b : ℕ) → NotCached b cached → heap' b ≡ heap b)
  unfolding clear_cache Queue.pop Outside Emptied NotCached
  clears [] cache heap a x q f enough h out c =
      let (answer, holds) = pop_refines h in
      (heap, if_true _ (ap (λ (t : ℕ). t == 0) answer), c, tt, λ b e. e, λ b n. refl)
  clears (p ∷ ps) cache heap a x q zero enough h out c = absurd (omega arith)
  clears (p ∷ ps) cache heap a x q (suc f) enough h out c =
      let (answer, holds) = pop_refines h in
      let rest =
        clears ps (Ring.pop cache).1 (update heap p none) a x q f (omega arith) holds out.2
          (Chain-update _ _ heap p none a x q out.0 out.1 c) in
      (
        rest.0,
        if_false _ (ap (λ (t : ℕ). t == 0) answer ∙ ==_ne p 0 (h.full 0 (omega arith)))
            ∙ ap (λ (t : ℕ). clear_cache (suc f) (Ring.pop cache).1 (update heap t none)) answer
            ∙ rest.1,
        rest.2,
        (rest.4 p (update_self heap p none), rest.3),
        λ b e. rest.4 b (update-none heap p b e),
        λ b n. rest.5 b n.1 ∙ update_ne heap p none b (λ s. n.0 (sym s)),
      )

  free_steps :
      (f a tail : ℕ) (heap : ℕ → Option (Node A)) (n : Node A)
      → a ≢ tail
      → heap a ≡ some n
      → free_from (suc f) a tail heap ≡ free_from f n.next tail (update heap a none)
  unfolding free_from
  free_steps f a tail heap n ne here = if_false _ (==_ne a tail ne) ∙ rw (here, ◌>>=◌) refl

  -- The second loop from the node at `a` on.
  frees :
      (heap : ℕ → Option (Node A)) (a : ℕ) (x : A) (q : List (ℕ × A)) (f : ℕ)
      → length q ≤ f
      → a ≢ 0
      → Nodes heap a x q
      → (heap' : ℕ → Option (Node A)) × (free_from (suc f) a (last_address a q) heap ≡ some heap')
        × Cleared heap' a q
        × ((b : ℕ) → b ≢ a → Apart b q → heap' b ≡ heap b)
  unfolding free_from Chain last_address Cleared Apart
  frees heap a x [] f enough ne c = (
    update heap a none,
    if_true _ (==_refl a) ∙ ap some (if_false _ (==_ne a 0 ne)),
    update_self heap a none,
    λ b n ns. update_ne heap a none b (λ s. n (sym s)),
  )
  frees heap a x (e ∷ q) zero enough nonnull c = absurd (omega arith)
  frees heap a x (e ∷ q) (suc f) enough nonnull c =
      let (n, here, held, leads, ne, apart, more_nodes) = c in
      let rest = Chain-update _ _ heap a none e.0 e.1 q apart.0 apart.1 more_nodes in
      let (heap', eq, cleared, kept) =
        frees (update heap a none) e.0 e.1 q f (omega arith) ne rest in
      (
        heap',
        free_steps (suc f) a _ heap n (Apart-last a e.0 q apart.0 apart.1) here ∙ rw leads eq,
        (kept a apart.0 apart.1 ∙ update_self heap a none, cleared),
        λ b n ns. kept b ns.0 ns.1 ∙ update_ne heap a none b (λ s. n (sym s)),
      )

  Emptied-kept :
      (heap : ℕ → Option (Node A)) (heap' : ℕ → Option (Node A)) (a : ℕ) (q : List (ℕ × A))
      (cached : List ℕ)
      → ((b : ℕ) → b ≢ a → Apart b q → heap' b ≡ heap b)
      → Outside cached a q
      → Emptied heap cached
      → Emptied heap' cached
  unfolding Outside Emptied
  Emptied-kept heap heap' a q [] kept out e = tt
  Emptied-kept heap heap' a q (c ∷ cs) kept out e =
      (kept c out.0 out.1 ∙ e.0, Emptied-kept heap heap' a q cs kept out.2 e.1)

  -- Where the cached nodes are none of the list's, the destructor ends, in no more turns of either
  -- loop than one for each node that is cached or in the list and one more; it never uses a pointer
  -- to nothing, and it frees the cached nodes and those of the list, and nothing at any other
  -- address `b`.
  pub linked_list_destroy_lem :
      {l : LinkedList A} {cached : List ℕ} {q : List (ℕ × A)} (b : ℕ)
      → Contains l cached q
      → Outside cached l.m_head q
      → b ≢ l.m_head
      → Apart b q
      → NotCached b cached
      → (heap : ℕ → Option (Node A)) × (destroy (suc (length cached + length q)) l ≡ some heap)
        × Cleared heap l.m_head q
        × Emptied heap cached
        × (heap b ≡ l.heap b)
  unfolding destroy
  linked_list_destroy_lem {l} {cached} {q} b c out n ns nc =
      let f = length cached + length q in
      let (heap, first, chain, emptied, none_left, same) =
        clears cached l.m_cache l.heap l.m_head c.first q f (omega arith) c.cache out c.chain in
      let (heap', second, cleared, kept) =
        frees heap l.m_head c.first q f (omega arith) c.head_address chain in
      (
        heap',
        rw (first, ◌>>=◌) (ap (λ (t : ℕ). free_from (suc f) l.m_head t heap) c.tail ∙ second),
        cleared,
        Emptied-kept heap heap' l.m_head q cached kept out emptied,
        kept b n ns ∙ same b nc,
      )

  -- The addresses that `new` gives to the turns of the constructor's loop.
  unfoldable pub Fresh : (ℕ → Option (Node A)) → List ℕ → Type 0
  Fresh heap [] = Unit
  Fresh heap (p ∷ ps) = (p ≢ 0) × (heap p ≡ none) × NotCached p ps × Fresh heap ps

  Fresh-update :
      (heap : ℕ → Option (Node A)) (p : ℕ) (o : Option (Node A)) (ps : List ℕ)
      → NotCached p ps
      → Fresh heap ps
      → Fresh (update heap p o) ps
  unfolding Fresh NotCached
  Fresh-update heap p o [] n fr = tt
  Fresh-update heap p o (r ∷ ps) n fr =
      (fr.0, update_ne heap p o r n.0 ∙ fr.1, fr.2, Fresh-update heap p o ps n.1 fr.3)

  Outside-append :
      (cached : List ℕ) (c a : ℕ) (q : List (ℕ × A))
      → Outside cached a q
      → c ≢ a
      → Apart c q
      → Outside (cached ++ (c ∷ [])) a q
  unfolding Outside
  Outside-append [] c a q out n ns = (n, ns, tt)
  Outside-append (d ∷ cs) c a q out n ns = (out.0, out.1, Outside-append cs c a q out.2 n ns)

  -- While there is room for them in the cache, the loop of the constructor puts the nodes that it
  -- makes into the cache, outside the list, and changes nothing else of what the list holds.
  pub fill_cache_lem :
      {l : LinkedList A} {cached : List ℕ} {q : List (ℕ × A)} (ps : List ℕ) (x : A)
      → Contains l cached q
      → Outside cached l.m_head q
      → Fresh l.heap ps
      → length cached + length ps ≤ l.m_cache.size
      → Contains (fill_cache ps x l) (cached ++ ps) q
        × Outside (cached ++ ps) (fill_cache ps x l).m_head q
  unfolding fill_cache Fresh Queue.push
  fill_cache_lem {l} {cached} {q} [] x c out fr room = (
    subst (λ t. Contains l t q) (sym (append-nil cached)) c,
    subst (λ t. Outside t l.m_head q) (sym (append-nil cached)) out,
  )
  fill_cache_lem {l} {cached} {q} (p ∷ ps) x c out fr room =
      let (n, ns) = Chain-fresh _ _ l.heap p l.m_head c.first q fr.1 c.chain in
      let (answer, holds) = push_refines p c.cache fr.0 in
      let turn =
        fill_cache_lem
          {l = record l {
            m_cache = (Ring.push p l.m_cache).1;
            heap = update l.heap p (some (record { element = x; next = 0 }));
          }}
          {cached = cached ++ (p ∷ [])} ps x
          (record {
            first = c.first;
            head_address = c.head_address;
            chain =
                Chain-update _ _ l.heap p (some (record { element = x; next = 0 })) l.m_head c.first
                  q n ns c.chain;
            tail = c.tail;
            cache = fits holds;
          })
          (Outside-append cached p l.m_head q out n ns)
          (Fresh-update l.heap p (some (record { element = x; next = 0 })) ps fr.2 fr.3)
          (omega (arith, longer, same_size)) in
      subst
        (λ t. Contains (fill_cache (p ∷ ps) x l) t q × Outside t (fill_cache (p ∷ ps) x l).m_head q)
        (append_assoc cached (p ∷ []) ps) turn
    where
      fits :
          Holds (Ring.push p l.m_cache).1 (Queue.push l.m_cache.size p cached).1
          → Holds (Ring.push p l.m_cache).1 (cached ++ (p ∷ []))
      fits = rw (lt→ltb (length cached) l.m_cache.size (omega arith)) (λ h. h)

      longer : length (cached ++ (p ∷ [])) ≡ length cached + 1
      longer = length-append cached (p ∷ [])

      same_size : (Ring.push p l.m_cache).1.size ≡ l.m_cache.size
      same_size = size-push p l.m_cache
