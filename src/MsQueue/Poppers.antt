-- ===== src/MsQueue/Poppers.antt =====
-- MSQueue::pop called by several threads: the loop of include/ni/cds/ms_queue.hh cut at each access
-- of shared memory, and interleaved in any order. No thread pushes here, so that no address is used
-- again.
pub mod Inv
pub mod Steps
pub mod Once
pub mod Freed
use libni.Base.{
  ℕ, zero, suc, ◌+◌, ◌<◌, ◌≡◌, ◌≢◌, Bool, true, false, List, [], ◌∷◌, ◌++◌, Option, none, some,
  update,
}
use libni.TaggedPtr.{TaggedPtr, value}
use libni.TaggedPtr.Atomic.{single_word, load, differ, compare_exchange_weak}
use libni.MsQueue.{Node, MsQueue, after}

-- Where a call of `pop` stands, with its locals. After `took` it has only to delete the old head.
pub data Popping (A : Type 0) : Type 0 where
  idle : Popping A
  starting : Popping A
  head_loaded : (old_head : TaggedPtr) → Popping A
  tail_loaded : (old_head old_tail : TaggedPtr) → Popping A
  next_loaded : (old_head old_tail next : TaggedPtr) → Popping A
  head_checked : (old_head old_tail next : TaggedPtr) → Popping A
  value_read : (old_head next : TaggedPtr) (element : A) → Popping A
  took : (old_head : TaggedPtr) (element : A) → Popping A

-- `taken` lists the elements of the calls whose exchange of `m_head` succeeded, in that order, and
-- `returned` those of the calls that returned true.
pub record System (A : Type 0) : Type 0 where
  pub queue : MsQueue A
  pub thread : ℕ → Popping A
  pub taken : List A
  pub returned : List A

module _ {A : Type 0} where
  -- One access of thread `i` of `n`; `fail` is whether a weak exchange fails spuriously.
  pub data Step (n : ℕ) (i : ℕ) (t : System A) : System A → Type 0 where
    call : i < n → t.thread i ≡ idle → Step n i t (record t { thread = update t.thread i starting })
    load_head :
        i < n
        → t.thread i ≡ starting
        → Step n i t (record t { thread = update t.thread i (head_loaded (load t.queue.m_head)) })
    load_tail :
        (old_head : TaggedPtr)
        → i < n
        → t.thread i ≡ head_loaded old_head
        → Step n i t
            (record t { thread = update t.thread i (tail_loaded old_head (load t.queue.m_tail)) })
    load_next :
        (old_head old_tail : TaggedPtr) (h : Node A)
        → i < n
        → t.thread i ≡ tail_loaded old_head old_tail
        → t.queue.heap (value old_head) ≡ some h
        → Step n i t
            (record t { thread = update t.thread i (next_loaded old_head old_tail (load h.next)) })
    same_head :
        (old_head old_tail next : TaggedPtr)
        → i < n
        → t.thread i ≡ next_loaded old_head old_tail next
        → differ t.queue.m_head old_head ≡ false
        → Step n i t (record t { thread = update t.thread i (head_checked old_head old_tail next) })
    other_head :
        (old_head old_tail next : TaggedPtr)
        → i < n
        → t.thread i ≡ next_loaded old_head old_tail next
        → differ t.queue.m_head old_head ≡ true
        → Step n i t (record t { thread = update t.thread i starting })
    -- `pop` returns false.
    find_empty :
        (old_head old_tail next : TaggedPtr)
        → i < n
        → t.thread i ≡ head_checked old_head old_tail next
        → value old_head ≡ value old_tail
        → value next ≡ 0
        → Step n i t (record t { thread = update t.thread i idle })
    help :
        (fail : Bool) (old_head old_tail next : TaggedPtr)
        → i < n
        → t.thread i ≡ head_checked old_head old_tail next
        → value old_head ≡ value old_tail
        → value next ≢ 0
        → Step n i t (record t {
          queue = record (t.queue) {
            m_tail =
                (compare_exchange_weak fail old_tail
                  (after (value next) old_tail)
                  t.queue.m_tail).2;
          };
          thread = update t.thread i starting;
        })
    read_value :
        (old_head old_tail next : TaggedPtr) (node : Node A)
        → i < n
        → t.thread i ≡ head_checked old_head old_tail next
        → value old_head ≢ value old_tail
        → t.queue.heap (value next) ≡ some node
        → Step n i t (record t { thread = update t.thread i (value_read old_head next node.value) })
    take :
        (fail : Bool) (old_head next : TaggedPtr) (x : A)
        → i < n
        → t.thread i ≡ value_read old_head next x
        → (compare_exchange_weak fail old_head (after (value next) old_head) t.queue.m_head).0
          ≡ true
        → Step n i t (record t {
          queue = record (t.queue) {
            m_head =
                (compare_exchange_weak fail old_head
                  (after (value next) old_head)
                  t.queue.m_head).2;
          };
          thread = update t.thread i (took old_head x);
          taken = t.taken ++ (x ∷ []);
        })
    take_fails :
        (fail : Bool) (old_head next : TaggedPtr) (x : A)
        → i < n
        → t.thread i ≡ value_read old_head next x
        → (compare_exchange_weak fail old_head (after (value next) old_head) t.queue.m_head).0
          ≡ false
        → Step n i t (record t { thread = update t.thread i starting })
    -- The old head is deleted, and `pop` returns true.
    finish :
        (old_head : TaggedPtr) (x : A)
        → i < n
        → t.thread i ≡ took old_head x
        → Step n i t (record t {
          queue = record (t.queue) { heap = update t.queue.heap (value old_head) none };
          thread = update t.thread i idle;
          returned = t.returned ++ (x ∷ []);
        })

  abbrev pub start_with : MsQueue A → System A
  start_with q = record { queue = q; thread = λ _. idle; taken = []; returned = [] }

  pub data Run (n : ℕ) (t : System A) : System A → Type 0 where
    start : Run n t t
    later : (i : ℕ) {u v : System A} → Run n t u → Step n i u v → Run n t v
