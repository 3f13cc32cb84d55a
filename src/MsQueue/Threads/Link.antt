-- ===== src/MsQueue/Threads/Link.antt =====
-- The access of MSQueue::push that links a node, and what holds in every state that threads reach.
use libni.Base.{
  ℕ, ◌≡◌, ◌≢◌, refl, sym, ap, subst, ◌∙◌, Bool, true, List, [], ◌∷◌, ◌++◌, some, update, update_ne,
  append_assoc,
}
use libni.Chain.{last_address, Chain-link, Apart-append}
use libni.Chain.Among.{Among-append, Among-new, Among-apart, Among-node}
use libni.TaggedPtr.{TaggedPtr, value}
use libni.TaggedPtr.Atomic.{single_word}
use libni.MsQueue.{Node, MsQueue, node_of, after}
use libni.MsQueue.Inv.{address, Nodes, Holds, address-store, address-default}
use libni.MsQueue.Threads.{
  checked, linked, System, exchange_next, Step, new_node, load_tail, load_next, same_tail,
  other_tail, link, link_fails, help, finish, Reach, start, later,
}
use libni.MsQueue.Threads.Inv.{Waiting, In, Sound, pending, Inv, next-Inv, map-Sound, Inv-start}
use libni.MsQueue.Threads.Weak.{weak_won}
use libni.MsQueue.Threads.Steps.{
  at_thread, new_node-Inv, load_tail-Inv, load_next-Inv, same_tail-Inv, other_tail-Inv,
  link_fails-Inv, help-Inv, finish-Inv,
}

module _ {A : Type 0} {p : List (ℕ × A)} {t : System A} (i : ℕ) (inv : Inv p t) (node : ℕ) (x : A)
    (old_tail : TaggedPtr) (tail tail' : Node A) where
  -- The queue with `tail'` in the place of the node that `old_tail` points to.
  abbrev relinked : MsQueue A
  relinked = record (t.queue) { heap = update t.queue.heap (value old_tail) (some tail') }

  abbrev longer : List (ℕ × A)
  longer = (p ++ t.pushed) ++ ((node, x) ∷ [])

  module _ (w : Waiting t.queue (p ++ t.pushed) node x)
      (m : In t.queue (p ++ t.pushed) (value old_tail))
      (here : t.queue.heap (value old_tail) ≡ some tail) (ends : address tail.next ≡ 0)
      (held : tail'.value ≡ tail.value) (leads : address tail'.next ≡ node) where
    at_last : value old_tail ≡ last_address (address t.queue.m_head) (p ++ t.pushed)
    at_last =
        let (n, there, last, on) =
          Among-node (λ n. n.value) (λ n. address n.next) t.queue.heap (value old_tail)
            (address t.queue.m_head) inv.holds.first (p ++ t.pushed) inv.holds.chain m in
        let same : n ≡ tail = cc (here, there) in
        last (ap (λ (n : Node A). address n.next) same ∙ ends)

    linked-Holds : Holds relinked longer
    linked-Holds = record {
      first = inv.holds.first;
      head_address = inv.holds.head_address;
      chain =
          subst
            (λ a.
              Nodes (update t.queue.heap a (some tail')) (address t.queue.m_head) inv.holds.first
                longer)
            (sym at_last)
            (Chain-link (λ n. n.value) (λ n. address n.next) t.queue.heap (address t.queue.m_head)
              inv.holds.first (p ++ t.pushed) node x tail tail' inv.holds.chain w.nonnull
              w.outside.0 w.outside.1 (node_of x, w.stands, refl, address-default)
              (ap t.queue.heap (sym at_last) ∙ here) held leads);
    }

    linked-Sound :
        (j : ℕ) → i ≢ j → pending (t.thread i) ≡ some node → Sound relinked longer (t.thread j)
    linked-Sound j ne mine =
        map-Sound t.queue (p ++ t.pushed) relinked longer (t.thread j) keeps
          (λ a l. Among-append a (address t.queue.m_head) (p ++ t.pushed) (node, x) l) (inv.sound j)
      where
        keeps :
            (k : ℕ) (y : A)
            → pending (t.thread j) ≡ some k
            → Waiting t.queue (p ++ t.pushed) k y
            → Waiting relinked longer k y
        keeps k y theirs v = record {
          nonnull = v.nonnull;
          fits = v.fits;
          outside = (
            v.outside.0,
            Apart-append k (p ++ t.pushed) (node, x) v.outside.1
                (λ e. ne (inv.apart i j node mine (theirs ∙ ap some e))),
          );
          stands =
              update_ne t.queue.heap (value old_tail) _ k (λ e.
                Among-apart k (value old_tail) (address t.queue.m_head) (p ++ t.pushed) v.outside.0
                  v.outside.1 m (sym e))
              ∙ v.stands;
        }

    linked-Inv :
        pending (t.thread i) ≡ some node
        → Inv p (record t {
          queue = relinked;
          thread = update t.thread i (linked node x old_tail);
          pushed = t.pushed ++ ((node, x) ∷ []);
        })
    linked-Inv mine =
        let same = append_assoc p t.pushed ((node, x) ∷ []) in
        next-Inv i (linked node x old_tail) relinked (t.pushed ++ ((node, x) ∷ [])) t.returned inv
          (subst (Holds relinked) same linked-Holds)
          (subst (λ l. In relinked l (address t.queue.m_tail)) same
            (Among-append _ (address t.queue.m_head) (p ++ t.pushed) (node, x) inv.tail))
          (
            w.fits,
            subst (λ l. In relinked l node) same
                (Among-new (address t.queue.m_head) (p ++ t.pushed) (node, x)),
          )
          (λ j ne. subst (λ l. Sound relinked l (t.thread j)) same (linked-Sound j ne mine))
          (λ a j ne f g. cc f)

module _ {A : Type 0} where
  link-Inv :
      {p : List (ℕ × A)} {t : System A} (i : ℕ) (inv : Inv p t) (fail : Bool) (node : ℕ) (x : A)
      (old_tail next : TaggedPtr) (tail : Node A)
      → t.thread i ≡ checked node x old_tail next
      → value next ≡ 0
      → t.queue.heap (value old_tail) ≡ some tail
      → (exchange_next fail node next tail).0 ≡ true
      → Inv p (record t {
        queue = record (t.queue) {
          heap = update t.queue.heap (value old_tail) (some (exchange_next fail node next tail).1);
        };
        thread = update t.thread i (linked node x old_tail);
        pushed = t.pushed ++ ((node, x) ∷ []);
      })
  link-Inv {p} {t} i inv fail node x old_tail next tail e null here won =
      let (w, m, leads) = at_thread i inv (checked node x old_tail next) e in
      let (read, stored) = weak_won fail next (after node next) tail.next won in
      linked-Inv i inv node x old_tail tail (exchange_next fail node next tail).1 w m here
        (ap value read ∙ null) refl (ap address stored ∙ address-store node next tail.next w.fits)
        (ap pending e)

  pub Step-Inv : {n i : ℕ} {p : List (ℕ × A)} {t u : System A} → Step n i t u → Inv p t → Inv p u
  Step-Inv {i} (new_node node x lt e nonnull fits free) inv =
      new_node-Inv i inv node x e nonnull fits free
  Step-Inv {i} (load_tail node x lt e) inv = load_tail-Inv i inv node x e
  Step-Inv {i} (load_next node x old tail lt e here) inv =
      load_next-Inv i inv node x old tail e here
  Step-Inv {i} (same_tail node x old next lt e same) inv = same_tail-Inv i inv node x old next e
  Step-Inv {i} (other_tail node x old next lt e other) inv = other_tail-Inv i inv node x old next e
  Step-Inv {i} (link fail node x old next tail lt e null here won) inv =
      link-Inv i inv fail node x old next tail e null here won
  Step-Inv {i} (link_fails fail node x old next tail lt e null here lost) inv =
      link_fails-Inv i inv node x old next e
  Step-Inv {i} (help fail node x old next lt e ne) inv = help-Inv i inv fail node x old next e ne
  Step-Inv {i} {t} (finish fail node x old lt e) inv =
      finish-Inv i inv fail node x old (t.returned ++ (x ∷ [])) e

  pub Reach-Inv :
      {n : ℕ} {q : MsQueue A} {p : List (ℕ × A)} {t : System A}
      → Holds q p
      → In q p (address q.m_tail)
      → Reach n q t
      → Inv p t
  Reach-Inv {q} {p} h m start = Inv-start p q h m
  Reach-Inv h m (later i r st) = Step-Inv st (Reach-Inv h m r)
