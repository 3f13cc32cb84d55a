-- ===== src/Spsc/BufferList.antt =====
-- include/ni/cds/spsc_buffer_list.hh: class SPSCBufferList, one call at a time. `buffers` holds the
-- rings by their addresses, and `none` is the use of a pointer to nothing. Where the code makes a
-- new buffer, `address` is where `new` puts it and `buffer` the ring that its constructor made, of
-- size m_buf_size; `node` is where m_in_use puts a new node.
pub mod Rings
pub mod Laws
pub mod Turn
pub mod Pop
pub mod Ends
use libni.Base.{
  ℕ, zero, suc, Bool, true, false, not, ◌&&◌, List, [], ◌∷◌, Option, some, none, ◌>>=◌, update,
  ◌==◌, if◌then◌else◌,
}
use libni.Spsc.Ring
use libni.Spsc.Ring.{Slot, Ring, pointer_slot}
use libni.Spsc.LinkedList
use libni.Spsc.LinkedList.{LinkedList}

pub record BufferList (A : Type 0) : Type 0 where
  pub m_buf_to_read : ℕ
  pub m_buf_to_write : ℕ
  pub m_in_use : LinkedList ℕ
  pub m_cache : Ring ℕ
  pub buffers : ℕ → Option (Ring A)

-- The pointer that `m_in_use.pop()` returns, with `Empty` the null pointer.
abbrev pub pointer_or_null : Option ℕ → ℕ
pointer_or_null none = 0
pointer_or_null (some a) = a

module _ {A : Type 0} where
  -- The loop that fills the cache, over the new buffers and their addresses.
  unfoldable pub fill_cache : List (ℕ × Ring A) → BufferList A → BufferList A
  fill_cache [] b = b
  fill_cache ((a, r) ∷ rs) b =
      fill_cache rs
        (record b { m_cache = (Ring.push a b.m_cache).1; buffers = update b.buffers a (some r) })

  -- The constructor. `in_use` and `cache` are what the constructors of m_in_use and m_cache made,
  -- and `filling` the buffers for the cache, none without `fill_cache`.
  unfoldable pub create :
      (address : ℕ)
      → Ring A
      → LinkedList ℕ
      → Ring ℕ
      → (filling : List (ℕ × Ring A)) → (ℕ → Option (Ring A))
      → BufferList A
  unfolding fill_cache
  create address buffer in_use cache filling buffers = fill_cache filling (record {
    m_buf_to_read = address;
    m_buf_to_write = address;
    m_in_use = in_use;
    m_cache = cache;
    buffers = update buffers address (some buffer);
  })

  -- The loops of the destructor, with as many turns as `left`; `none` is also their end. A null
  -- pointer that m_in_use holds ends the first one, as no pointer does.
  unfoldable pub delete_in_use : (left : ℕ) → BufferList A → Option (BufferList A)
  delete_in_use zero b = none
  delete_in_use (suc left) b = do
    (buf, in_use) ← LinkedList.pop b.m_in_use
    let a = pointer_or_null buf
    elim (a == 0) [
      | true ↦ some (record b { m_in_use = in_use })
      | false ↦
          delete_in_use left (record b { m_in_use = in_use; buffers = update b.buffers a none })
    ]

  unfoldable pub delete_cached : (left : ℕ) → BufferList A → Option (BufferList A)
  delete_cached zero b = none
  delete_cached (suc left) b =
      let (buf, cache) = Ring.pop b.m_cache in
      elim (buf == 0) [
        | true ↦ some b
        | false ↦
            delete_cached left (record b { m_cache = cache; buffers = update b.buffers buf none })
      ]

  unfoldable pub destroy : (left_in_use left_cached : ℕ) → BufferList A → Option (BufferList A)
  unfolding delete_in_use delete_cached
  destroy left_in_use left_cached b = do
    let b' =
        if b.m_buf_to_read == 0
        then b
        else record b { buffers = update b.buffers b.m_buf_to_read none }
    b'' ← delete_in_use left_in_use b'
    delete_cached left_cached b''

module _ {A : Type 0} ⦃s : Slot A⦄ where
  unfoldable pub empty : BufferList A → Option Bool
  empty b = do
    r ← b.buffers b.m_buf_to_read
    some (Ring.empty r && b.m_buf_to_read == b.m_buf_to_write)

  unfoldable pub next_to_write :
      (node address : ℕ) → Ring A → BufferList A → Option (ℕ × BufferList A)
  next_to_write node address buffer b = do
    let (cached, cache) = Ring.pop b.m_cache
    let buf = if cached == 0 then address else cached
    let buffers = if cached == 0 then update b.buffers address (some buffer) else b.buffers
    in_use ← LinkedList.push node buf b.m_in_use
    some (buf, record b { m_in_use = in_use; m_cache = cache; buffers = buffers })

  unfoldable pub push : (node address : ℕ) → Ring A → A → BufferList A → Option (BufferList A)
  unfolding next_to_write
  push node address buffer x b = do
    w ← b.buffers b.m_buf_to_write
    b' ←
        if not (Ring.available w)
        then (do
          (buf, b') ← next_to_write node address buffer b
          some (record b' { m_buf_to_write = buf }))
        else some b
    w' ← b'.buffers b'.m_buf_to_write
    some (record b' { buffers = update b'.buffers b'.m_buf_to_write (some (Ring.push x w').1) })

  unfoldable pub next_to_read : BufferList A → Option (ℕ × BufferList A)
  next_to_read b = do
    (next, in_use) ← LinkedList.pop b.m_in_use
    some (pointer_or_null next, record b { m_in_use = in_use })

  unfoldable pub release : (buf : ℕ) → BufferList A → Option (BufferList A)
  release buf b = do
    r ← b.buffers buf
    let (kept, cache) = Ring.push buf b.m_cache
    some (record b {
      m_cache = cache;
      buffers = update b.buffers buf (if kept then some (Ring.reset r) else none);
    })

  -- `return m_buf_to_read->pop();`
  unfoldable pub pop_read : BufferList A → Option (A × BufferList A)
  pop_read b = do
    r ← b.buffers b.m_buf_to_read
    let (x, r') = Ring.pop r
    some (x, record b { buffers = update b.buffers b.m_buf_to_read (some r') })

  -- The body of the inner `if`.
  unfoldable pub advance : BufferList A → Option (BufferList A)
  unfolding next_to_read release
  advance b = do
    (next, b') ← next_to_read b
    if next == 0
        then some b'
        else do b'' ← release b'.m_buf_to_read b'; some (record b'' { m_buf_to_read = next })

  -- The second test of `empty` reads the same ring as the first.
  unfoldable pub pop : BufferList A → Option (A × BufferList A)
  unfolding advance pop_read
  pop b = do
    r ← b.buffers b.m_buf_to_read
    if not (Ring.empty r)
        then pop_read b
        else if b.m_buf_to_read == b.m_buf_to_write
        then some (s.empty, b)
        else (do b' ← if Ring.empty r then advance b else some b; pop_read b')

  -- The private `reset`, with as many turns as `left`; `none` is also their end.
  unfoldable pub reset : (left : ℕ) → BufferList A → Option (BufferList A)
  unfolding next_to_read release
  reset zero b = none
  reset (suc left) b = do
    (buf, b') ← next_to_read b
    elim (buf == 0) [ true ↦ some b' | false ↦ do b'' ← release buf b'; reset left b'' ]
