-- ===== src/MsQueue/Threads/Steps.antt =====
-- Each access of a thread in MSQueue::push keeps the invariant.
use mathlib.Core.Option.{some-injective}
use libni.Base.{
  ℕ, ◌≡◌, ◌≢◌, sym, ap, subst, ◌∙◌, Bool, List, ◌++◌, none, some, update, update_self, update_ne,
  inl, inr,
}
use libni.Chain.{Chain-update, Chain-fresh, fresh-ne}
use libni.Chain.Among.{Among-node}
use libni.TaggedPtr.{TaggedPtr, value}
use libni.TaggedPtr.Laws.{Fits}
use libni.TaggedPtr.Atomic.{AtomicTaggedPtr, single_word, load, compare_exchange_weak}
use libni.MsQueue.{Node, node_of, after}
use libni.MsQueue.Inv.{address, value-Fits, address-store}
use libni.MsQueue.Threads.{Pushing, idle, loading, loaded, read_next, checked, linked, System}
use libni.MsQueue.Threads.Inv.{
  Waiting, In, Sound, pending, Inv, OwnNode, next-Inv, kept_node, moved-Inv, map-Sound,
}
use libni.MsQueue.Threads.Weak.{weak_cases}

module _ {A : Type 0} {p : List (ℕ × A)} {t : System A} (i : ℕ) (inv : Inv p t) where
  Waiting-node :
      {a : ℕ} (c : Pushing A)
      → Sound t.queue (p ++ t.pushed) c
      → pending c ≡ some a
      → (y : A) × Waiting t.queue (p ++ t.pushed) a y
  Waiting-node idle ok e = cc e
  Waiting-node (loading node x) ok e =
      (x, subst (λ b. Waiting t.queue (p ++ t.pushed) b x) (some-injective _ _ e) ok)
  Waiting-node (loaded node x old) ok e =
      (x, subst (λ b. Waiting t.queue (p ++ t.pushed) b x) (some-injective _ _ e) ok.0)
  Waiting-node (read_next node x old next) ok e =
      (x, subst (λ b. Waiting t.queue (p ++ t.pushed) b x) (some-injective _ _ e) ok.0)
  Waiting-node (checked node x old next) ok e =
      (x, subst (λ b. Waiting t.queue (p ++ t.pushed) b x) (some-injective _ _ e) ok.0)
  Waiting-node (linked node x old) ok e = cc e

  -- What thread `i` stands on.
  pub at_thread : (c : Pushing A) → t.thread i ≡ c → Sound t.queue (p ++ t.pushed) c
  at_thread c e = subst (Sound t.queue (p ++ t.pushed)) e (inv.sound i)

  pub new_node-Inv :
      (node : ℕ) (x : A)
      → t.thread i ≡ idle
      → node ≢ 0
      → Fits node
      → t.queue.heap node ≡ none
      → Inv p (record t {
        queue = record (t.queue) { heap = update t.queue.heap node (some (node_of x)) };
        thread = update t.thread i (loading node x);
      })
  new_node-Inv node x e nonnull fits free =
      let outside =
        Chain-fresh (λ n. n.value) (λ n. address n.next) t.queue.heap node (address t.queue.m_head)
          inv.holds.first (p ++ t.pushed) free inv.holds.chain in
      next-Inv i (loading node x)
        (record (t.queue) { heap = update t.queue.heap node (some (node_of x)) }) t.pushed
        t.returned inv
        (record {
          first = inv.holds.first;
          head_address = inv.holds.head_address;
          chain =
              Chain-update _ _ t.queue.heap node (some (node_of x)) (address t.queue.m_head)
                inv.holds.first (p ++ t.pushed) outside.0 outside.1 inv.holds.chain;
        })
        inv.tail
        (record {
          nonnull = nonnull;
          fits = fits;
          outside = outside;
          stands = update_self t.queue.heap node (some (node_of x));
        })
        (λ j ne.
          map-Sound t.queue (p ++ t.pushed) _ (p ++ t.pushed) (t.thread j) (λ m y e w. keeps m y w)
            (λ a m. m) (inv.sound j))
        own
    where
      keeps :
          (m : ℕ) (y : A)
          → Waiting t.queue (p ++ t.pushed) m y
          → Waiting
              (record (t.queue) { heap = update t.queue.heap node (some (node_of x)) })
              (p ++ t.pushed)
              m
              y
      keeps m y w = record {
        nonnull = w.nonnull;
        fits = w.fits;
        outside = w.outside;
        stands =
            update_ne t.queue.heap node _ m (fresh-ne t.queue.heap node m _ free w.stands)
            ∙ w.stands;
      }

      own : OwnNode t.thread i (loading node x)
      own a j ne e f =
          let (y, w) = Waiting-node (t.thread j) (inv.sound j) f in cc (e, free, w.stands)

  pub load_tail-Inv :
      (node : ℕ) (x : A)
      → t.thread i ≡ loading node x
      → Inv p (record t { thread = update t.thread i (loaded node x (load t.queue.m_tail)) })
  load_tail-Inv node x e =
      moved-Inv i _ inv (at_thread (loading node x) e, inv.tail) (ap pending (sym e))

  pub load_next-Inv :
      (node : ℕ) (x : A) (old_tail : TaggedPtr) (tail : Node A)
      → t.thread i ≡ loaded node x old_tail
      → t.queue.heap (value old_tail) ≡ some tail
      → Inv p (record t { thread = update t.thread i (read_next node x old_tail (load tail.next)) })
  load_next-Inv node x old_tail tail e here =
      let (w, m) = at_thread (loaded node x old_tail) e in
      let (n, there, ends, leads) =
        Among-node (λ n. n.value) (λ n. address n.next) t.queue.heap (value old_tail)
          (address t.queue.m_head) inv.holds.first (p ++ t.pushed) inv.holds.chain m in
      let same : n ≡ tail = cc (here, there) in
      moved-Inv i _ inv
        (
          w,
          m,
          subst (λ n. address n.next ≢ 0 → In t.queue (p ++ t.pushed) (address n.next)) same leads,
        )
        (ap pending (sym e))

  pub same_tail-Inv :
      (node : ℕ) (x : A) (old_tail next : TaggedPtr)
      → t.thread i ≡ read_next node x old_tail next
      → Inv p (record t { thread = update t.thread i (checked node x old_tail next) })
  same_tail-Inv node x old_tail next e =
      moved-Inv i _ inv (at_thread (read_next node x old_tail next) e) (ap pending (sym e))

  pub other_tail-Inv :
      (node : ℕ) (x : A) (old_tail next : TaggedPtr)
      → t.thread i ≡ read_next node x old_tail next
      → Inv p (record t { thread = update t.thread i (loading node x) })
  other_tail-Inv node x old_tail next e =
      moved-Inv i _ inv (at_thread (read_next node x old_tail next) e).0 (ap pending (sym e))

  pub link_fails-Inv :
      (node : ℕ) (x : A) (old_tail next : TaggedPtr)
      → t.thread i ≡ checked node x old_tail next
      → Inv p (record t { thread = update t.thread i (loading node x) })
  link_fails-Inv node x old_tail next e =
      moved-Inv i _ inv (at_thread (checked node x old_tail next) e).0 (ap pending (sym e))

  -- A step that moves `m_tail` within the chain.
  pub tail-Inv :
      (c : Pushing A) (tail : AtomicTaggedPtr) (returned : List A)
      → In t.queue (p ++ t.pushed) (address tail)
      → Sound t.queue (p ++ t.pushed) c
      → OwnNode t.thread i c
      → Inv p (record t {
        queue = record (t.queue) { m_tail = tail };
        thread = update t.thread i c;
        returned = returned;
      })
  tail-Inv c tail returned m ok own =
      next-Inv i c (record (t.queue) { m_tail = tail }) t.pushed returned inv
        (record {
          first = inv.holds.first;
          head_address = inv.holds.head_address;
          chain = inv.holds.chain;
        })
        m (moved c ok) (λ j ne. moved (t.thread j) (inv.sound j)) own
    where
      moved :
          (s : Pushing A)
          → Sound t.queue (p ++ t.pushed) s
          → Sound (record (t.queue) { m_tail = tail }) (p ++ t.pushed) s
      moved s =
          map-Sound t.queue (p ++ t.pushed) (record (t.queue) { m_tail = tail }) (p ++ t.pushed) s
            (λ m y e w. record {
              nonnull = w.nonnull;
              fits = w.fits;
              outside = w.outside;
              stands = w.stands;
            })
            (λ a m. m)

  -- Where an exchange of `m_tail` leaves it, and `old_tail`.
  swung :
      (fail : Bool) (v : ℕ) (old : TaggedPtr)
      → Fits v
      → In t.queue (p ++ t.pushed) v
      → In t.queue
          (p ++ t.pushed)
          (address (compare_exchange_weak fail old (after v old) t.queue.m_tail).2)
  swung fail v old fits m = elim (weak_cases fail old (after v old) t.queue.m_tail) [
    | inl (stored, kept) ↦
        subst (In t.queue (p ++ t.pushed))
          (sym (ap address stored ∙ address-store v old t.queue.m_tail fits)) m
    | inr (stays, read) ↦ subst (In t.queue (p ++ t.pushed)) (sym (ap address stays)) inv.tail
  ]

  read_back :
      (fail : Bool) (old d : TaggedPtr)
      → In t.queue (p ++ t.pushed) (value old)
      → In t.queue (p ++ t.pushed) (value (compare_exchange_weak fail old d t.queue.m_tail).1)
  read_back fail old d m = elim (weak_cases fail old d t.queue.m_tail) [
    | inl (stored, kept) ↦ subst (In t.queue (p ++ t.pushed)) (sym (ap value kept)) m
    | inr (stays, read) ↦ subst (In t.queue (p ++ t.pushed)) (sym (ap value read)) inv.tail
  ]

  pub help-Inv :
      (fail : Bool) (node : ℕ) (x : A) (old_tail next : TaggedPtr)
      → t.thread i ≡ checked node x old_tail next
      → value next ≢ 0
      → Inv p (record t {
        queue = record (t.queue) {
          m_tail =
              (compare_exchange_weak fail old_tail (after (value next) old_tail) t.queue.m_tail).2;
        };
        thread = update t.thread i (
            loaded node x
              (compare_exchange_weak fail old_tail (after (value next) old_tail) t.queue.m_tail).1);
      })
  help-Inv fail node x old_tail next e ne =
      let (w, m, leads) = at_thread (checked node x old_tail next) e in
      tail-Inv _ _ t.returned (swung fail (value next) old_tail (value-Fits next) (leads ne))
        (w, read_back fail old_tail (after (value next) old_tail) m)
        (kept_node i
          (loaded node x
            (compare_exchange_weak fail old_tail (after (value next) old_tail) t.queue.m_tail).1)
          inv (ap pending (sym e)))

  pub finish-Inv :
      (fail : Bool) (node : ℕ) (x : A) (old_tail : TaggedPtr) (returned : List A)
      → t.thread i ≡ linked node x old_tail
      → Inv p (record t {
        queue = record (t.queue) {
          m_tail = (compare_exchange_weak fail old_tail (after node old_tail) t.queue.m_tail).2;
        };
        thread = update t.thread i idle;
        returned = returned;
      })
  finish-Inv fail node x old_tail returned e =
      let (fits, m) = at_thread (linked node x old_tail) e in
      tail-Inv idle _ returned (swung fail node old_tail fits m) tt (λ a j ne f g. cc f)
