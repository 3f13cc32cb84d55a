-- ===== src/MsQueue/Threads/Solo.antt =====
-- A thread that goes on alone in MSQueue::push, from each place at which it may stand.
use libni.Base.{
  ℕ, zero, suc, ◌+◌, ◌*◌, ◌<◌, ◌≤◌, ◌≡◌, refl, sym, ap, subst, ◌∙◌, arith, Bool, true, false, List,
  ◌++◌, some, inl, inr, Bool-cases, ℕ_discrete, update, update_self,
}
use libni.Chain.Among.{Ahead, Ahead-next}
use libni.TaggedPtr.{TaggedPtr, value}
use libni.TaggedPtr.Atomic.{AtomicTaggedPtr, single_word, differ, compare_exchange_weak}
use libni.MsQueue.{Node, after}
use libni.MsQueue.Inv.{
  address, pointer, weak_hit, differ_self, same_pointer, value-Fits, address-store,
}
use libni.MsQueue.Threads.{
  idle, loading, loaded, read_next, checked, linked, System, exchange_next, Step, load_tail,
  load_next, same_tail, other_tail, link, help, finish,
}
use libni.MsQueue.Threads.Inv.{Inv}
use libni.MsQueue.Threads.Steps.{at_thread}
use libni.MsQueue.Threads.Link.{Step-Inv}
use libni.MsQueue.Threads.Linked.{readable}

module _ {A : Type 0} where
  -- `steps` accesses of thread `i`, with none of another thread between them.
  pub data Alone (n i : ℕ) : System A → (steps : ℕ) → System A → Type 0 where
    stays : {t : System A} → Alone n i t 0 t
    then_step :
        {t u v : System A} {steps : ℕ}
        → Step n i t u
        → Alone n i u steps v
        → Alone n i t (suc steps) v

  -- Alone, thread `i` returns from `push` within `m` accesses.
  abbrev pub Returns : (n i m : ℕ) → System A → Type 0
  Returns n i m t =
      (steps : ℕ) × (steps ≤ m) × (u : System A) × Alone n i t steps u × (u.thread i ≡ idle)

  pub at_once : {n i m : ℕ} {t : System A} → t.thread i ≡ idle → Returns n i m t
  at_once {t} e = (0, omega arith, t, stays, e)

  pub after_step :
      {n i m l : ℕ} {t u : System A} → Step n i t u → m < l → Returns n i m u → Returns n i l t
  after_step st more (steps, le, v, r, e) = (suc steps, omega arith, v, then_step st r, e)

  pub within : {n i m l : ℕ} {t : System A} → m ≤ l → Returns n i m t → Returns n i l t
  within more (steps, le, v, r, e) = (steps, omega arith, v, r, e)

  -- The node that `push` reads through `a`.
  node_at :
      {p : List (ℕ × A)} {t : System A} {i : ℕ} (node : ℕ) (x : A) (old : TaggedPtr)
      → Inv p t
      → t.thread i ≡ loaded node x old
      → (n : Node A) × (t.queue.heap (value old) ≡ some n)
  node_at {t} {i} node x old inv e =
      readable inv (loaded node x old) (at_thread i inv (loaded node x old) e)

  pub from_linked :
      {n i : ℕ} {t : System A} (node : ℕ) (x : A) (old : TaggedPtr)
      → i < n
      → t.thread i ≡ linked node x old
      → Returns n i 1 t
  from_linked {n} {i} {t} node x old lt e =
      after_step (finish false node x old lt e) (omega arith)
        (at_once {m = 0} (update_self t.thread i idle))

  -- The call goes on from `loaded`, with `m_tail` one node further.
  abbrev Further : (n i : ℕ) → List (ℕ × A) → ℕ → ℕ → A → TaggedPtr → Type 0
  Further n i p k node x old =
      (j : ℕ)
      → k ≡ suc j
      → (u : System A) → Inv p u
      → u.thread i ≡ loaded node x old
      → Ahead j (address u.queue.m_tail) (address u.queue.m_head) (p ++ u.pushed)
      → Returns n i (7 + 6 * j) u

module _ {A : Type 0} {n i : ℕ} {p : List (ℕ × A)} (lt : i < n) where
  from_checked :
      {t : System A} (k node : ℕ) (x : A) (next : TaggedPtr) (tail : Node A)
      → Inv p t
      → t.thread i ≡ checked node x (pointer t.queue.m_tail) next
      → t.queue.heap (address t.queue.m_tail) ≡ some tail
      → next ≡ pointer tail.next
      → Ahead k (address t.queue.m_tail) (address t.queue.m_head) (p ++ t.pushed)
      → Further n i p k node x (pointer t.queue.m_tail)
      → Returns n i (2 + 6 * k) t
  from_checked {t} k node x next tail inv e here read ahead again =
      elim (ℕ_discrete (value next) 0) [
        | yes null ↦
            let won : (exchange_next false node next tail).0 ≡ true =
              ap (λ (d : TaggedPtr). (compare_exchange_weak false d (after node d) tail.next).0)
                read
              ∙ ap (λ (r : Bool × TaggedPtr × AtomicTaggedPtr). r.0)
                  (weak_hit (after node (pointer tail.next)) tail.next) in
            after_step (link false node x (pointer t.queue.m_tail) next tail lt e null here won)
              (omega arith)
              (from_linked node x (pointer t.queue.m_tail) lt
                (update_self t.thread i (linked node x (pointer t.queue.m_tail))))
        | no ne ↦
            let old = pointer t.queue.m_tail in
            let step = help false node x old next lt e ne in
            let hit = weak_hit (after (value next) old) t.queue.m_tail in
            let (j, less, closer) =
              Ahead-next (λ n. n.value) (λ n. address n.next) t.queue.heap k
                (address t.queue.m_tail) (address t.queue.m_head) inv.holds.first (p ++ t.pushed)
                tail inv.holds.chain ahead here (λ z. ne (ap value read ∙ z)) in
            let moved : address
                  (compare_exchange_weak false old (after (value next) old) t.queue.m_tail).2
                ≡ address tail.next =
              ap (λ (r : Bool × TaggedPtr × AtomicTaggedPtr). address r.2) hit
              ∙ address-store (value next) old t.queue.m_tail (value-Fits next)
              ∙ ap value read in
            after_step step (omega arith) (
              again j less _ (Step-Inv step inv)
                (update_self t.thread i _
                  ∙ ap (λ (r : Bool × TaggedPtr × AtomicTaggedPtr). loaded node x r.1) hit)
                (subst (λ a. Ahead j a (address t.queue.m_head) (p ++ t.pushed)) (sym moved)
                  closer))
      ]

  -- From the load of `m_tail` to that of `next` behind it.
  from_tail :
      {t : System A} (k node : ℕ) (x : A)
      → Inv p t
      → t.thread i ≡ loaded node x (pointer t.queue.m_tail)
      → Ahead k (address t.queue.m_tail) (address t.queue.m_head) (p ++ t.pushed)
      → Further n i p k node x (pointer t.queue.m_tail)
      → Returns n i (4 + 6 * k) t
  from_tail {t} k node x inv e ahead again =
      let old = pointer t.queue.m_tail in
      let (tail, here) = node_at node x old inv e in
      let read = load_next node x old tail lt e here in
      let at = update_self t.thread i (read_next node x old (pointer tail.next)) in
      let check = same_tail node x old (pointer tail.next) lt at (differ_self t.queue.m_tail) in
      let checked_at =
        update_self (update t.thread i (read_next node x old (pointer tail.next))) i
          (checked node x old (pointer tail.next)) in
      after_step read (omega arith) (
        after_step {m = 2 + 6 * k} {l = 3 + 6 * k} check (omega arith) (
          from_checked k node x (pointer tail.next) tail (Step-Inv check (Step-Inv read inv))
            checked_at here refl ahead again))

  pub from_loading :
      {t : System A} (k node : ℕ) (x : A)
      → Inv p t
      → t.thread i ≡ loading node x
      → Ahead k (address t.queue.m_tail) (address t.queue.m_head) (p ++ t.pushed)
      → Further n i p k node x (pointer t.queue.m_tail)
      → Returns n i (5 + 6 * k) t
  from_loading {t} k node x inv e ahead again =
      let read = load_tail node x lt e in
      after_step read (omega arith) (
        from_tail k node x (Step-Inv read inv)
          (update_self t.thread i (loaded node x (pointer t.queue.m_tail))) ahead again)

  pub from_loaded :
      {t : System A} (k node : ℕ) (x : A) (old : TaggedPtr)
      → Inv p t
      → t.thread i ≡ loaded node x old
      → Ahead k (address t.queue.m_tail) (address t.queue.m_head) (p ++ t.pushed)
      → ((old' : TaggedPtr) → Further n i p k node x old')
      → Returns n i (7 + 6 * k) t
  from_loaded {t} k node x old inv e ahead again = elim (Bool-cases (differ t.queue.m_tail old)) [
    | inl other ↦
        let (tail, here) = node_at node x old inv e in
        let read = load_next node x old tail lt e here in
        let at = update_self t.thread i (read_next node x old (pointer tail.next)) in
        let back = other_tail node x old (pointer tail.next) lt at other in
        let back_at =
          update_self (update t.thread i (read_next node x old (pointer tail.next))) i
            (loading node x) in
        after_step read (omega arith) (
          after_step {m = 5 + 6 * k} {l = 6 + 6 * k} back (omega arith)
            (from_loading k node x (Step-Inv back (Step-Inv read inv)) back_at ahead (again _)))
    | inr same ↦
        let now : old ≡ pointer t.queue.m_tail = sym (same_pointer t.queue.m_tail old same) in
        within (omega arith) (from_tail k node x inv (e ∙ ap (loaded node x) now) ahead (again _))
  ]

  pub further : (k node : ℕ) (x : A) (old : TaggedPtr) → Further n i p k node x old
  further zero node x old j e u inv at ahead = absurd (omega arith)
  further (suc k) node x old j e u inv at ahead =
      from_loaded j node x old inv at ahead
        (λ old'. subst (λ m. Further n i p m node x old') (omega arith) (further k node x old'))
