-- ===== src/MsQueue/Poppers/Steps.antt =====
-- Each access of a thread in MSQueue::pop keeps the invariant.
use mathlib.Core.Option.{some-injective}
use libni.Base.{
  ℕ, ◌≡◌, sym, ap, subst, ◌∙◌, Bool, true, List, [], ◌∷◌, ◌++◌, append_assoc, none, some, update,
  update_self, update_ne, update_all, ℕ_discrete,
}
use libni.Chain.{Apart, Chain, Chain-update, first_node}
use libni.TaggedPtr.{TaggedPtr, value}
use libni.TaggedPtr.Atomic.{AtomicTaggedPtr, single_word, compare_exchange_weak}
use libni.MsQueue.{Node, MsQueue, after}
use libni.MsQueue.Inv.{address, pointer, Nodes, value-Fits, address-store}
use libni.MsQueue.Threads.Weak.{weak_won}
use libni.MsQueue.Poppers.{Popping, idle, starting, value_read, took, System}
use libni.MsQueue.Poppers.Inv.{Inv, elements, Reads, First, Sound, map-Sound}

module _ {A : Type 0} {p : List (ℕ × A)} {t : System A} (i : ℕ) (inv : Inv p t) where
  pub at_thread : (c : Popping A) → t.thread i ≡ c → Sound t.queue inv.rest c
  at_thread c e = subst (Sound t.queue inv.rest) e (inv.sound i)

  -- A step that only moves thread `i`.
  pub moved-Inv :
      (c : Popping A) → Sound t.queue inv.rest c → Inv p (record t { thread = update t.thread i c })
  moved-Inv c ok = record {
    rest = inv.rest;
    holds = inv.holds;
    split = inv.split;
    null = inv.null;
    sound = update_all (λ j s. Sound t.queue inv.rest s) t.thread i c ok (λ j ne. inv.sound j);
  }

  pub head_apart : Apart (address t.queue.m_head) inv.rest
  unfolding Apart Chain
  head_apart = go inv.rest inv.holds.first inv.holds.chain
    where
      go :
          (l : List (ℕ × A)) (x : A)
          → Nodes t.queue.heap (address t.queue.m_head) x l
          → Apart (address t.queue.m_head) l
      go [] x c = tt
      go (e ∷ l) x c = c.5

  -- The element behind the head is the one that `pop` reads.
  pub First-read :
      (old next : TaggedPtr) (node : Node A)
      → Reads t.queue old next
      → t.queue.heap (value next) ≡ some node
      → pointer t.queue.m_head ≡ old
      → First inv.rest next node.value
  unfolding Chain
  First-read old next node reads there same = go inv.rest inv.holds.first inv.holds.chain
    where
      go :
          (l : List (ℕ × A)) (x : A)
          → Nodes t.queue.heap (address t.queue.m_head) x l
          → First l next node.value
      go [] x c =
          let nowhere : value next ≡ 0 = sym (ap value (reads same c.0 c.1)) ∙ c.3 in
          absurd (cc (inv.null, ap t.queue.heap nowhere, there))
      go (e ∷ l) x c =
          let at : value next ≡ e.0 = sym (ap value (reads same c.0 c.1)) ∙ c.3 in
          let (n, stands, held) = first_node _ _ t.queue.heap e.0 e.1 l c.6 in
          let equal : node ≡ n = some-injective _ _ (sym there ∙ ap t.queue.heap at ∙ stands) in
          (at, ap (λ (m : Node A). m.value) equal ∙ held)

  -- A step that changes only `m_tail`.
  pub tail-Inv :
      (tail : AtomicTaggedPtr)
      → Inv p (record t {
        queue = record (t.queue) { m_tail = tail };
        thread = update t.thread i starting;
      })
  tail-Inv tail = record {
    rest = inv.rest;
    holds = record {
      first = inv.holds.first;
      head_address = inv.holds.head_address;
      chain = inv.holds.chain;
    };
    split = inv.split;
    null = inv.null;
    sound =
        update_all (λ j s. Sound (record (t.queue) { m_tail = tail }) inv.rest s) t.thread i
          starting tt
          (λ j ne.
            map-Sound t.queue inv.rest (record (t.queue) { m_tail = tail }) inv.rest (t.thread j)
              (λ a s. s) (λ old next a r. r) (λ old next x a f. f) (λ a n s. n) (inv.sound j));
  }

  pub finish-Inv :
      (old : TaggedPtr) (x : A) (returned : List A)
      → t.thread i ≡ took old x
      → Inv p (record t {
        queue = record (t.queue) { heap = update t.queue.heap (value old) none };
        thread = update t.thread i idle;
        returned = returned;
      })
  finish-Inv old x returned e =
      let (ne, apart) = at_thread (took old x) e in
      record {
        rest = inv.rest;
        holds = record {
          first = inv.holds.first;
          head_address = inv.holds.head_address;
          chain =
              Chain-update _ _ t.queue.heap (value old) none (address t.queue.m_head)
                inv.holds.first inv.rest ne apart inv.holds.chain;
        };
        split = inv.split;
        null = freed_null;
        sound =
            update_all (λ j s. Sound freed inv.rest s) t.thread i idle tt
              (λ j other.
                map-Sound t.queue inv.rest freed inv.rest (t.thread j) (λ a s. s)
                  (λ o next a r same d at. r same d (
                    sym (update_ne t.queue.heap (value old) none (address t.queue.m_head) ne) ∙ at))
                  (λ o next y a f. f) (λ a n s. n) (inv.sound j));
      }
    where
      freed : MsQueue A
      freed = record (t.queue) { heap = update t.queue.heap (value old) none }

      freed_null : update t.queue.heap (value old) none 0 ≡ none
      freed_null = elim (ℕ_discrete (value old) 0) [
        | yes z ↦
            ap (update t.queue.heap (value old) none) (sym z)
            ∙ update_self t.queue.heap (value old) none
        | no other ↦ update_ne t.queue.heap (value old) none 0 other ∙ inv.null
      ]

  -- The head moves over the first element of the rest, which is `x`.
  take_rest :
      (head : AtomicTaggedPtr) (old next : TaggedPtr) (x y : A) (l : List (ℕ × A))
      → Nodes t.queue.heap (address t.queue.m_head) y l
      → elements p ≡ t.taken ++ elements l
      → ((j : ℕ) → Sound t.queue l (t.thread j))
      → First l next x
      → Apart (value old) l
      → address head ≡ value next
      → Inv p (record t {
        queue = record (t.queue) { m_head = head };
        thread = update t.thread i (took old x);
        taken = t.taken ++ (x ∷ []);
      })
  unfolding Chain Apart elements
  take_rest head old next x y [] c split sound first apart at = absurd first
  take_rest head old next x y (e ∷ l) c split sound (here, held) apart at =
      let now : address head ≡ e.0 = at ∙ here in
      record {
        rest = l;
        holds = record {
          first = e.1;
          head_address = λ z. c.4 (sym now ∙ z);
          chain = subst (λ a. Nodes t.queue.heap a e.1 l) (sym now) c.6;
        };
        split =
            split
            ∙ sym (
                append_assoc t.taken (x ∷ []) (elements l)
                ∙ ap (λ z. t.taken ++ (z ∷ elements l)) held);
        null = inv.null;
        sound =
            update_all (λ j s. Sound moved l s) t.thread i (took old x)
              (λ z. apart.0 (z ∙ now), apart.1)
              (λ j other.
                map-Sound t.queue (e ∷ l) moved l (t.thread j) (λ a s. s.1)
                  (λ o nx a r same. absurd (a.0 (sym (ap value same) ∙ now)))
                  (λ o nx z a f same. absurd (a.0 (sym (ap value same) ∙ now)))
                  (λ a n s z. s.0 (z ∙ now)) (sound j));
      }
    where
      moved : MsQueue A
      moved = record (t.queue) { m_head = head }

  pub take-Inv :
      (fail : Bool) (old next : TaggedPtr) (x : A)
      → t.thread i ≡ value_read old next x
      → (compare_exchange_weak fail old (after (value next) old) t.queue.m_head).0 ≡ true
      → Inv p (record t {
        queue = record (t.queue) {
          m_head = (compare_exchange_weak fail old (after (value next) old) t.queue.m_head).2;
        };
        thread = update t.thread i (took old x);
        taken = t.taken ++ (x ∷ []);
      })
  take-Inv fail old next x e won =
      let (apart, first) = at_thread (value_read old next x) e in
      let (same, stored) = weak_won fail old (after (value next) old) t.queue.m_head won in
      take_rest _ old next x inv.holds.first inv.rest inv.holds.chain inv.split inv.sound
        (first same) apart
        (ap address stored ∙ address-store (value next) old t.queue.m_head (value-Fits next))
