-- ===== src/MsQueue/Threads.antt =====
-- MSQueue::push called by several threads: the loop of include/ni/cds/ms_queue.hh cut at each
-- access of shared memory, and interleaved in any order. No thread pops here.
pub mod Inv
pub mod Weak
pub mod Steps
pub mod Link
pub mod Linked
pub mod Solo
pub mod Progress
use libni.Base.{
  ℕ, zero, suc, ◌+◌, ◌<◌, ◌≡◌, ◌≢◌, Bool, true, false, List, [], ◌∷◌, ◌++◌, Option, none, some,
  update, ◌==◌, if◌then◌else◌,
}
use libni.TaggedPtr.{TaggedPtr, value}
use libni.TaggedPtr.Laws.{Fits}
use libni.TaggedPtr.Atomic.{single_word, load, differ, compare_exchange_weak}
use libni.MsQueue.{Node, MsQueue, node_of, after}

-- Where a call of `push` stands. `next` and `old_tail` are its locals; after `linked` it has only to
-- move `m_tail`.
pub data Pushing (A : Type 0) : Type 0 where
  idle : Pushing A
  loading : (node : ℕ) (x : A) → Pushing A
  loaded : (node : ℕ) (x : A) (old_tail : TaggedPtr) → Pushing A
  read_next : (node : ℕ) (x : A) (old_tail next : TaggedPtr) → Pushing A
  checked : (node : ℕ) (x : A) (old_tail next : TaggedPtr) → Pushing A
  linked : (node : ℕ) (x : A) (old_tail : TaggedPtr) → Pushing A

-- `pushed` lists the nodes that were linked, and `returned` the elements whose call returned.
pub record System (A : Type 0) : Type 0 where
  pub queue : MsQueue A
  pub thread : ℕ → Pushing A
  pub pushed : List (ℕ × A)
  pub returned : List A

module _ {A : Type 0} where
  -- The exchange of `next` in the node `t`, and that of `m_tail`.
  abbrev pub exchange_next : (fail : Bool) (node : ℕ) (next : TaggedPtr) → Node A → Bool × Node A
  exchange_next fail node next t =
      let (won, _, next') = compare_exchange_weak fail next (after node next) t.next in
      (won, record t { next = next' })

  -- One access of thread `i` of `n`. The caller chooses what to push, and when; `fail` is whether a
  -- weak exchange fails spuriously.
  pub data Step (n : ℕ) (i : ℕ) (t : System A) : System A → Type 0 where
    new_node :
        (node : ℕ) (x : A)
        → i < n
        → t.thread i ≡ idle
        → node ≢ 0
        → Fits node
        → t.queue.heap node ≡ none
        → Step n i t (record t {
          queue = record (t.queue) { heap = update t.queue.heap node (some (node_of x)) };
          thread = update t.thread i (loading node x);
        })
    load_tail :
        (node : ℕ) (x : A)
        → i < n
        → t.thread i ≡ loading node x
        → Step n i t (record t { thread = update t.thread i (loaded node x (load t.queue.m_tail)) })
    load_next :
        (node : ℕ) (x : A) (old_tail : TaggedPtr) (tail : Node A)
        → i < n
        → t.thread i ≡ loaded node x old_tail
        → t.queue.heap (value old_tail) ≡ some tail
        → Step n i t
            (record t { thread = update t.thread i (read_next node x old_tail (load tail.next)) })
    -- `m_tail` is compared with `old_tail`.
    same_tail :
        (node : ℕ) (x : A) (old_tail next : TaggedPtr)
        → i < n
        → t.thread i ≡ read_next node x old_tail next
        → differ t.queue.m_tail old_tail ≡ false
        → Step n i t (record t { thread = update t.thread i (checked node x old_tail next) })
    other_tail :
        (node : ℕ) (x : A) (old_tail next : TaggedPtr)
        → i < n
        → t.thread i ≡ read_next node x old_tail next
        → differ t.queue.m_tail old_tail ≡ true
        → Step n i t (record t { thread = update t.thread i (loading node x) })
    link :
        (fail : Bool) (node : ℕ) (x : A) (old_tail next : TaggedPtr) (tail : Node A)
        → i < n
        → t.thread i ≡ checked node x old_tail next
        → value next ≡ 0
        → t.queue.heap (value old_tail) ≡ some tail
        → (exchange_next fail node next tail).0 ≡ true
        → Step n i t (record t {
          queue = record (t.queue) {
            heap =
                update t.queue.heap (value old_tail) (some (exchange_next fail node next tail).1);
          };
          thread = update t.thread i (linked node x old_tail);
          pushed = t.pushed ++ ((node, x) ∷ []);
        })
    -- The exchange of `next` fails and writes nothing.
    link_fails :
        (fail : Bool) (node : ℕ) (x : A) (old_tail next : TaggedPtr) (tail : Node A)
        → i < n
        → t.thread i ≡ checked node x old_tail next
        → value next ≡ 0
        → t.queue.heap (value old_tail) ≡ some tail
        → (exchange_next fail node next tail).0 ≡ false
        → Step n i t (record t { thread = update t.thread i (loading node x) })
    -- `m_tail` is behind: the exchange moves it, or gives its value in `old_tail`.
    help :
        (fail : Bool) (node : ℕ) (x : A) (old_tail next : TaggedPtr)
        → i < n
        → t.thread i ≡ checked node x old_tail next
        → value next ≢ 0
        → Step n i t (record t {
          queue = record (t.queue) {
            m_tail =
                (compare_exchange_weak fail old_tail
                  (after (value next) old_tail)
                  t.queue.m_tail).2;
          };
          thread = update t.thread i (
              loaded node x
                (compare_exchange_weak fail old_tail
                  (after (value next) old_tail)
                  t.queue.m_tail).1);
        })
    -- `m_tail` is moved to the new node, or not, and `push` returns true.
    finish :
        (fail : Bool) (node : ℕ) (x : A) (old_tail : TaggedPtr)
        → i < n
        → t.thread i ≡ linked node x old_tail
        → Step n i t (record t {
          queue = record (t.queue) {
            m_tail = (compare_exchange_weak fail old_tail (after node old_tail) t.queue.m_tail).2;
          };
          thread = update t.thread i idle;
          returned = t.returned ++ (x ∷ []);
        })

  abbrev pub start_with : MsQueue A → System A
  start_with q = record { queue = q; thread = λ _. idle; pushed = []; returned = [] }

  pub data Reach (n : ℕ) (q : MsQueue A) : System A → Type 0 where
    start : Reach n q (start_with q)
    later : (i : ℕ) {t u : System A} → Reach n q t → Step n i t u → Reach n q u
