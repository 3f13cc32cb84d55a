-- ===== src/MsQueue/Poppers/Freed.antt =====
-- Threads in MSQueue::pop: one deletes the node that another is about to read.
use libni.Base.{
  ℕ, ◌<◌, ◌≡◌, ◌≢◌, refl, sym, ap, subst, ◌∙◌, Bool, false, List, [], ◌∷◌, ◌++◌, none, update,
  update_self, update_ne,
}
use libni.TaggedPtr.{TaggedPtr, value}
use libni.TaggedPtr.Atomic.{AtomicTaggedPtr, single_word}
use libni.MsQueue.{after}
use libni.MsQueue.Inv.{address, pointer, Holds, weak_hit, differ_self, value-Fits}
use libni.MsQueue.Front.{front, shifted-Holds}
use libni.MsQueue.Poppers.{
  Popping, idle, starting, head_loaded, tail_loaded, next_loaded, head_checked, value_read, took,
  System, call, load_head, load_tail, load_next, same_head, read_value, take, finish, Run, start,
  later,
}

module _ {A : Type 0} where
  -- The threads of `g` are those of `f`, but for thread `j`.
  abbrev Others : (f g : ℕ → Popping A) → ℕ → Type 0
  Others f g j = (k : ℕ) → j ≢ k → g k ≡ f k

  Others-update :
      (f g : ℕ → Popping A) (j : ℕ) (c : Popping A) → Others f g j → Others f (update g j c) j
  Others-update f g j c o k ne = update_ne g j c k ne ∙ o k ne

  -- Thread `j` alone, up to the exchange of `m_head`.
  reads_value :
      {n : ℕ} {t : System A} {e : ℕ × A} {p : List (ℕ × A)} (j : ℕ)
      → j < n
      → Holds t.queue (e ∷ p)
      → address t.queue.m_head ≢ address t.queue.m_tail
      → t.thread j ≡ idle
      → (next : TaggedPtr) × (f : ℕ → Popping A) × Run n t (record t { thread = f })
        × (value next ≡ e.0)
        × (f j ≡ value_read (pointer t.queue.m_head) next e.1)
        × Others t.thread f j
  reads_value {n} {t} {e} j lt h other at =
      let (d, node, head_node, leads, next_node, held, ne, apart) = front h in
      let old = pointer t.queue.m_head in
      let tail = pointer t.queue.m_tail in
      let next = pointer d.next in
      let f1 = update t.thread j starting in
      let f2 = update f1 j (head_loaded old) in
      let f3 = update f2 j (tail_loaded old tail) in
      let f4 = update f3 j (next_loaded old tail next) in
      let f5 = update f4 j (head_checked old tail next) in
      let f6 = update f5 j (value_read old next node.value) in
      let r1 = later j start (call lt at) in
      let r2 = later j r1 (load_head lt (update_self t.thread j starting)) in
      let r3 = later j r2 (load_tail old lt (update_self f1 j (head_loaded old))) in
      let r4 =
        later j r3 (load_next old tail d lt (update_self f2 j (tail_loaded old tail)) head_node) in
      let r5 = later j r4 (
        same_head old tail next lt (update_self f3 j (next_loaded old tail next))
          (differ_self t.queue.m_head)) in
      let r6 = later j r5 (
        read_value old tail next node lt (update_self f4 j (head_checked old tail next)) other
          (ap t.queue.heap leads ∙ next_node)) in
      (
        next,
        f6,
        r6,
        leads,
        update_self f5 j (value_read old next node.value) ∙ ap (value_read old next) held,
        Others-update t.thread f5 j _ (
            Others-update t.thread f4 j _ (
              Others-update t.thread f3 j _ (
                Others-update t.thread f2 j _ (
                  Others-update t.thread f1 j _
                    (Others-update t.thread t.thread j _ (λ k ne. refl)))))),
      )

  -- Whenever a thread i has loaded m_head, m_head is still what it loaded, there is an element, and
  -- m_tail is not at the dummy node, another thread that is not in pop can pop that element and
  -- return, after which i is still about to read the node that it loaded, and no node stands there
  -- any more.
  pub pop_frees_read :
      {n : ℕ} {t : System A} {e : ℕ × A} {p : List (ℕ × A)} (i j : ℕ) (old_tail : TaggedPtr)
      → j < n
      → j ≢ i
      → Holds t.queue (e ∷ p)
      → address t.queue.m_head ≢ address t.queue.m_tail
      → t.thread i ≡ tail_loaded (pointer t.queue.m_head) old_tail
      → t.thread j ≡ idle
      → (u : System A) × Run n t u
        × (u.returned ≡ t.returned ++ (e.1 ∷ []))
        × Holds u.queue p
        × (u.thread i ≡ tail_loaded (pointer t.queue.m_head) old_tail)
        × (u.queue.heap (address t.queue.m_head) ≡ none)
  pop_frees_read {n} {t} {e} {p} i j old_tail lt apart h other at_i at_j =
      let (next, f, run, leads, at, same) = reads_value j lt h other at_j in
      let old = pointer t.queue.m_head in
      let hit = weak_hit (after (value next) old) t.queue.m_head in
      let won = later j run (
        take false old next e.1 lt at (ap (λ (r : Bool × TaggedPtr × AtomicTaggedPtr). r.0) hit)) in
      let g = update f j (took old e.1) in
      (
        _,
        later j won (finish old e.1 lt (update_self f j (took old e.1))),
        refl,
        subst
            (λ (r : Bool × TaggedPtr × AtomicTaggedPtr).
              Holds
                (record (t.queue) {
                  m_head = r.2;
                  heap = update t.queue.heap (address t.queue.m_head) none;
                })
                p)
            (sym hit) (shifted-Holds h (value next) leads (value-Fits next)),
        Others-update t.thread g j idle (Others-update t.thread f j (took old e.1) same) i apart
            ∙ at_i,
        update_self t.queue.heap (address t.queue.m_head) none,
      )
