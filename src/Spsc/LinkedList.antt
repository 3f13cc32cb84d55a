-- ===== src/Spsc/LinkedList.antt =====
-- include/ni/cds/spsc_linked_list.hh: class SPSCLinkedList, one call at a time, on a heap of nodes.
-- `address` is where `new` puts a node, and `none` is the use of a pointer to nothing.
pub mod Laws
pub mod Ends
pub mod Filled
use libni.Base.{
  ℕ, zero, suc, List, [], ◌∷◌, ◌≡◌, Bool, true, false, Option, some, none, ◌>>=◌, update, ◌==◌,
  if◌then◌else◌,
}
use libni.Spsc.Ring
use libni.Spsc.Ring.{Ring, pointer_slot}

pub record Node (A : Type 0) : Type 0 where
  pub element : A
  pub next : ℕ

pub record LinkedList (A : Type 0) : Type 0 where
  pub m_head : ℕ
  pub m_tail : ℕ
  pub m_cache : Ring ℕ
  pub heap : ℕ → Option (Node A)

module _ {A : Type 0} where
  -- The constructor, without `fill_cache`; `T()` is the element of the first node, and `cache` the
  -- ring that the constructor of `m_cache` made.
  unfoldable pub create :
      (address : ℕ) → A → (cache : Ring ℕ) → (ℕ → Option (Node A)) → LinkedList A
  create address x cache heap = record {
    m_head = address;
    m_tail = address;
    m_cache = cache;
    heap = update heap address (some (record { element = x; next = 0 }));
  }

  -- `m_tail->next.store(n); m_tail = n;`
  unfoldable pub link : (n : ℕ) → LinkedList A → Option (LinkedList A)
  link n l = do
    tail ← l.heap l.m_tail
    some (record l { m_tail = n; heap = update l.heap l.m_tail (some (record tail { next = n })) })

  unfoldable pub push : (address : ℕ) → A → LinkedList A → Option (LinkedList A)
  unfolding link
  push address x l =
      let (n, cache) = Ring.pop l.m_cache in
      let cached = record l { m_cache = cache } in
      if n == 0
      then link address
          (record cached { heap = update l.heap address (some (record { element = x; next = 0 })) })
      else link n cached

  -- `none` inside is `Empty`.
  unfoldable pub pop : LinkedList A → Option (Option A × LinkedList A)
  pop l = do
    head ← l.heap l.m_head
    let next = head.next
    if next == 0 then some (none, l) else do
      node ← l.heap next
      let (kept, cache) = Ring.push l.m_head l.m_cache
      some (
        some node.element,
        record l {
          m_head = next;
          m_cache = cache;
          heap = if kept then l.heap else update l.heap l.m_head none;
        },
      )

  -- The loop of the constructor where `fill_cache` is set: `addresses` has one for each turn.
  unfoldable pub fill_cache : (addresses : List ℕ) → A → LinkedList A → LinkedList A
  fill_cache [] x l = l
  fill_cache (p ∷ ps) x l = fill_cache ps x (record l {
    m_cache = (Ring.push p l.m_cache).1;
    heap = update l.heap p (some (record { element = x; next = 0 }));
  })

  -- The destructor's first loop, on fuel; `none` means that the fuel ran out.
  unfoldable pub clear_cache :
      (fuel : ℕ) → Ring ℕ → (ℕ → Option (Node A)) → Option (ℕ → Option (Node A))
  clear_cache zero cache heap = none
  clear_cache (suc f) cache heap =
      let (p, cache') = Ring.pop cache in
      let rest = clear_cache f cache' (update heap p none) in if p == 0 then some heap else rest

  -- Its second loop, with the last `delete`.
  unfoldable pub free_from :
      (fuel head tail : ℕ) → (ℕ → Option (Node A)) → Option (ℕ → Option (Node A))
  free_from zero a tail heap = none
  free_from (suc f) a tail heap =
      if a == tail
      then some (if a == 0 then heap else update heap a none)
      else do node ← heap a; free_from f node.next tail (update heap a none)

  unfoldable pub destroy : (fuel : ℕ) → LinkedList A → Option (ℕ → Option (Node A))
  unfolding clear_cache free_from
  destroy fuel l = do
    heap ← clear_cache fuel l.m_cache l.heap
    free_from fuel l.m_head l.m_tail heap
