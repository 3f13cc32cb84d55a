-- ===== src/MsQueue.antt =====
-- include/ni/cds/ms_queue.hh: class MSQueue, one call at a time, on a heap of nodes, with the
-- methods `put` and `get` that include/ni/cds/queue.hh gives it. `address` is where `new` puts a
-- node, and `none` is the use of a pointer to nothing. Each turn of a loop is given whether its
-- weak exchanges fail spuriously; `none` is also the end of these turns.
pub mod Inv
pub mod PushLoop
pub mod Push
pub mod Front
pub mod Pop
pub mod Try
pub mod TryPop
pub mod Ends
pub mod Threads
pub mod Poppers
use libni.Base.{
  ℕ, zero, suc, ◌+◌, Bool, true, false, List, [], ◌∷◌, Option, some, none, ◌>>=◌, ◌&&◌, not, update,
  ◌==◌, if◌then◌else◌,
}
use libni.TaggedPtr.{TaggedPtr, value, tag, of_value, of_value_tag}
use libni.TaggedPtr.Atomic
use libni.TaggedPtr.Atomic.{
  AtomicTaggedPtr, single_word, load, store, differ, compare_exchange_strong, compare_exchange_weak,
}

pub record Node (A : Type 0) : Type 0 where
  pub value : A
  pub next : AtomicTaggedPtr

pub record MsQueue (A : Type 0) : Type 0 where
  pub m_head : AtomicTaggedPtr
  pub m_tail : AtomicTaggedPtr
  pub heap : ℕ → Option (Node A)

-- `NodePtr(v, p.tag() + 1)`
abbrev pub after : ℕ → TaggedPtr → TaggedPtr
after v p = of_value_tag v (tag p + 1)

-- How a turn of the loop of `push` ends: with the next value of `old_tail`, or at `break`.
pub data PushTurn (A : Type 0) : Type 0 where
  again : (old_tail : TaggedPtr) → MsQueue A → PushTurn A
  pushed : MsQueue A → PushTurn A

module _ {A : Type 0} where
  -- `Node(item)`
  abbrev pub node_of : A → Node A
  node_of x = record { value = x; next = Atomic.default }

  -- The constructor; `x` is `Element()`.
  unfoldable pub create : (address : ℕ) → A → (ℕ → Option (Node A)) → MsQueue A
  create address x heap = record {
    m_head = store (of_value address) Atomic.default;
    m_tail = store (of_value address) Atomic.default;
    heap = update heap address (some (node_of x));
  }

  -- The loop of the destructor, on fuel, and the last `delete`.
  unfoldable pub destroy_from :
      (fuel : ℕ) → (head tail : ℕ) → (ℕ → Option (Node A)) → Option (ℕ → Option (Node A))
  destroy_from zero head tail heap = none
  destroy_from (suc f) head tail heap = elim (head == tail) [
    | true ↦ some (update heap tail none)
    | false ↦ do n ← heap head; destroy_from f (value (load n.next)) tail (update heap head none)
  ]

  unfoldable pub destroy : (fuel : ℕ) → MsQueue A → Option (ℕ → Option (Node A))
  unfolding destroy_from
  destroy fuel q = destroy_from fuel (value (load q.m_head)) (value (load q.m_tail)) q.heap

  -- `empty()`: alone, a call finds `m_head` as it was at its first turn.
  unfoldable pub empty : MsQueue A → Option Bool
  empty q = do
    let old_head : TaggedPtr = load q.m_head
    let old_tail : TaggedPtr = load q.m_tail
    n ← q.heap (value old_head)
    let next : TaggedPtr = load n.next
    if differ q.m_head old_head
        then none
        else some ((value old_head == value old_tail) && (value next == 0))

  unfoldable pub push_turn :
      (spurious_next spurious_tail : Bool)
      → (node : ℕ) (old_tail : TaggedPtr) → MsQueue A
      → Option (PushTurn A)
  push_turn fail_next fail_tail node old_tail q = do
    t ← q.heap (value old_tail)
    let next : TaggedPtr = load t.next
    if differ q.m_tail old_tail
        then some (again (load q.m_tail) q)
        else if value next == 0
        then (let (won, _, next') = compare_exchange_weak fail_next next (after node next) t.next in
            let q' = record q {
              heap = update q.heap (value old_tail) (some (record t { next = next' }));
            } in
            let (_, _, tail') =
              compare_exchange_weak fail_tail old_tail (after node old_tail) q.m_tail in
            some (if won then pushed (record q' { m_tail = tail' }) else again (load q.m_tail) q'))
        else (let (_, old_tail', tail') =
              compare_exchange_weak fail_tail old_tail (after (value next) old_tail) q.m_tail in
            some (again old_tail' (record q { m_tail = tail' })))

  unfoldable pub push_loop :
      List (Bool × Bool) → (node : ℕ) (old_tail : TaggedPtr) → MsQueue A → Option (MsQueue A)
  push_loop [] node old_tail q = none
  push_loop ((fail_next, fail_tail) ∷ turns) node old_tail q = do
    t ← push_turn fail_next fail_tail node old_tail q
    elim t [ again old_tail' q' ↦ push_loop turns node old_tail' q' | pushed q' ↦ some q' ]

  -- It returns true at its `break`.
  unfoldable pub push :
      List (Bool × Bool) → (address : ℕ) → A → MsQueue A → Option (Bool × MsQueue A)
  push turns address x q = do
    q' ←
        push_loop turns address (load q.m_tail)
          (record q { heap = update q.heap address (some (node_of x)) })
    some (true, q')

  unfoldable pub tail_state : MsQueue A → ℕ
  tail_state q = let tail : TaggedPtr = load q.m_tail in tag tail

  unfoldable pub try_push :
      (address : ℕ) → A → (old_tail_state : ℕ) → MsQueue A → Option (Bool × MsQueue A)
  try_push address x old_tail_state q =
      let old_tail : TaggedPtr = load q.m_tail in
      if tag old_tail == old_tail_state
      then (do
        t ← q.heap (value old_tail)
        let next : TaggedPtr = load t.next
        if value next == 0
            then (do
              let heap' = update q.heap address (some (node_of x))
              let (won, _, next') = compare_exchange_strong next (after address next) t.next
              let (_, _, tail') = compare_exchange_strong old_tail (after address old_tail) q.m_tail
              some (
                  if won
                  then (
                    true,
                    record q {
                      m_tail = tail';
                      heap = update heap' (value old_tail) (some (record t { next = next' }));
                    },
                  )
                  else (false, record q { heap = update heap' address none })))
            else (let (_, _, tail') =
                  compare_exchange_strong old_tail (after (value next) old_tail) q.m_tail in
                some (false, record q { m_tail = tail' })))
      else some (false, q)

-- How a turn of the loop of `pop` ends: not yet, or with what was popped and the state of the queue.
pub data PopTurn (A : Type 0) : Type 0 where
  retry : MsQueue A → PopTurn A
  found_empty : (head_state : ℕ) → PopTurn A
  popped : A → (head_state : ℕ) → MsQueue A → PopTurn A

pub data PopResult (A : Type 0) : Type 0 where
  success : A → PopResult A
  empty_queue : (head_state : ℕ) → PopResult A
  failure : PopResult A

module _ {A : Type 0} where
  unfoldable pub pop_turn : (spurious : Bool) → MsQueue A → Option (PopTurn A)
  pop_turn spurious q = do
    let old_head : TaggedPtr = load q.m_head
    let old_tail : TaggedPtr = load q.m_tail
    h ← q.heap (value old_head)
    let next : TaggedPtr = load h.next
    if differ q.m_head old_head
        then some (retry q)
        else if value old_head == value old_tail
        then (let (_, _, tail') =
              compare_exchange_weak spurious old_tail (after (value next) old_tail) q.m_tail in
            some (
              if value next == 0
              then found_empty (tag old_tail)
              else retry (record q { m_tail = tail' })))
        else (do
          n ← q.heap (value next)
          let (won, _, head') =
              compare_exchange_weak spurious old_head (after (value next) old_head) q.m_head
          some (
              if won
              then popped n.value (tag old_head)
                  (record q { m_head = head'; heap = update q.heap (value old_head) none })
              else retry q))

  -- With the state of the queue, which `pop` stores where its second argument says; no element
  -- stands for the result false.
  unfoldable pub pop : List Bool → MsQueue A → Option (Option A × ℕ × MsQueue A)
  pop [] q = none
  pop (spurious ∷ turns) q = do
    t ← pop_turn spurious q
    elim t [
      | retry q' ↦ pop turns q'
      | found_empty s ↦ some (none, s, q)
      | popped x s q' ↦ some (some x, s, q')
    ]

  unfoldable pub try_pop : (old_head_state : ℕ) → MsQueue A → Option (PopResult A × MsQueue A)
  try_pop old_head_state q = do
    let old_head : TaggedPtr = load q.m_head
    let old_tail : TaggedPtr = load q.m_tail
    h ← q.heap (value old_head)
    let next : TaggedPtr = load h.next
    if not (tag old_head == old_head_state)
        then some (failure, q)
        else if value old_head == value old_tail
        then (let (_, _, tail') =
              compare_exchange_strong old_tail (after (value next) old_tail) q.m_tail in
            some (
              if value next == 0
              then (empty_queue (tag old_tail), q)
              else (failure, record q { m_tail = tail' })))
        else (do
          n ← q.heap (value next)
          let (won, _, head') =
              compare_exchange_strong old_head (after (value next) old_head) q.m_head
          some (
              if won
              then (
                success n.value,
                record q { m_head = head'; heap = update q.heap (value old_head) none },
              )
              else (failure, q)))

  -- `Queue::put` and `Queue::get`
  unfoldable pub put :
      List (Bool × Bool) → (address : ℕ) → A → MsQueue A → Option (Bool × MsQueue A)
  put turns address x q = push turns address x q

  unfoldable pub get : List Bool → MsQueue A → Option (Option A × MsQueue A)
  get turns q = do (found, state, q') ← pop turns q; some (found, q')
