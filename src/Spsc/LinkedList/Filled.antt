-- ===== src/Spsc/LinkedList/Filled.antt =====
-- An SPSCLinkedList that was made with `fill_cache`, and the first element that is pushed to it.
use libni.Base.{
  ℕ, ◌≤◌, ◌≡◌, ◌≢◌, refl, sym, ap, ◌∙◌, arith, List, [], ◌∷◌, length, Option, some, none, ◌>>=◌,
  update, update_self, update_ne, ==_ne, if◌then◌else◌, if_false,
}
use libni.Chain.{Chain, last_address}
use libni.Spsc.Ring
use libni.Spsc.Ring.{Ring, pointer_slot}
use libni.Spsc.Ring.Inv.{Holds}
use libni.Spsc.LinkedList.{Node, LinkedList, create, fill_cache, push, pop}
use libni.Spsc.LinkedList.Laws.{Contains, push_forgets}
use libni.Spsc.LinkedList.Ends.{Outside, NotCached, Fresh, fill_cache_lem}

module _ {A : Type 0} where
  -- A list that is made holds nothing.
  create-Contains :
      (a : ℕ) (x : A) (cache : Ring ℕ) (heap : ℕ → Option (Node A))
      → a ≢ 0
      → Holds cache []
      → Contains (create a x cache heap) [] []
  unfolding create Chain last_address
  create-Contains a x cache heap ne h = record {
    first = x;
    head_address = ne;
    chain = (
      record { element = x; next = 0 },
      update_self heap a (some (record { element = x; next = 0 })),
      refl,
      refl,
    );
    tail = refl;
    cache = h;
  }

  -- The list after a `pop` whose head leads to `next`.
  popped : LinkedList A → (next : ℕ) → LinkedList A
  popped l next = record l {
    m_head = next;
    m_cache = (Ring.push l.m_head l.m_cache).1;
    heap = if (Ring.push l.m_head l.m_cache).0 then l.heap else update l.heap l.m_head none;
  }

  at_head : {l : LinkedList A} {cached : List ℕ} → Contains l cached [] → l.m_tail ≡ l.m_head
  unfolding last_address
  at_head c = c.tail

  fill_cache_keeps :
      (ps : List ℕ) (x : A) (l : LinkedList A) (b : ℕ)
      → NotCached b ps
      → (fill_cache ps x l).heap b ≡ l.heap b
  unfolding fill_cache NotCached
  fill_cache_keeps [] x l b n = refl
  fill_cache_keeps (p ∷ ps) x l b n =
      fill_cache_keeps ps x
        (record l {
          m_cache = (Ring.push p l.m_cache).1;
          heap = update l.heap p (some (record { element = x; next = 0 }));
        })
        b n.1
      ∙ update_ne l.heap p (some (record { element = x; next = 0 })) b (λ e. n.0 (sym e))

  -- The node that was cached first stands there with `T()`.
  filled_node :
      (p : ℕ) (ps : List ℕ) (x : A) (l : LinkedList A)
      → NotCached p ps
      → (fill_cache (p ∷ ps) x l).heap p ≡ some (record { element = x; next = 0 })
  unfolding fill_cache
  filled_node p ps x l n =
      fill_cache_keeps ps x
        (record l {
          m_cache = (Ring.push p l.m_cache).1;
          heap = update l.heap p (some (record { element = x; next = 0 }));
        })
        p n
      ∙ update_self l.heap p (some (record { element = x; next = 0 }))

  -- A list that the constructor makes with `fill_cache`, its first node not at null, its spare
  -- nodes at free addresses that are different and not null, and an empty cache with room for them,
  -- holds nothing and has all those nodes in its cache. The first `push` to it loses its element
  -- `y`, whatever that is: the `pop` after it returns `x`, the `T()` that the constructor put into
  -- the node.
  pub filled_loses_first :
      (address a p : ℕ) (ps : List ℕ) (x y : A) (cache : Ring ℕ) (heap : ℕ → Option (Node A))
      → a ≢ 0
      → Holds cache []
      → Fresh (create a x cache heap).heap (p ∷ ps)
      → length (p ∷ ps) ≤ cache.size
      → (l : LinkedList A) × (k : LinkedList A) × Contains
          (fill_cache (p ∷ ps) x (create a x cache heap))
          (p ∷ ps)
          []
        × (push address y (fill_cache (p ∷ ps) x (create a x cache heap)) ≡ some l)
        × (pop l ≡ some (some x, k))
  unfolding pop popped Fresh Outside create
  filled_loses_first address a p ps x y cache heap ne h fresh room =
      let made = create a x cache heap in
      let filled = fill_cache (p ∷ ps) x made in
      let (c, out) =
        fill_cache_lem (p ∷ ps) x (create-Contains a x cache heap ne h) tt fresh (omega arith) in
      let (l, last, pushes, same, head, tail, at, linked, stands, holds) =
        push_forgets address y y (record { element = x; next = 0 }) c (λ e. out.0 (e ∙ at_head c))
          (filled_node p ps x made fresh.2) in
      let front = ap l.heap (head ∙ sym (at_head c)) ∙ linked in
      (
        l,
        popped l p,
        c,
        pushes,
        rw (front, ◌>>=◌) (if_false _ (==_ne p 0 fresh.0) ∙ rw (stands, ◌>>=◌) refl),
      )
