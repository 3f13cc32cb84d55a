-- ===== src/Spsc/BufferList/Laws.antt =====
-- The queue that a list of buffers holds, and method push of SPSCBufferList.
use libni.Base.{
  ℕ, ◌≡◌, ◌≢◌, sym, ap, subst, ◌∙◌, arith, true, false, List, [], ◌∷◌, ◌++◌, none, some, ◌>>=◌,
  update, update_self, Bool-cases, inl, inr, lt→ltb,
}
use libni.Spsc.Ring
use libni.Spsc.Ring.{Slot, Ring, pointer_slot}
use libni.Spsc.Ring.Inv.{Holds}
use libni.Spsc.Ring.Refine.{pop_refines, queries_refine}
use libni.Spsc.Queue
use libni.Spsc.LinkedList
use libni.Spsc.LinkedList.{LinkedList}
use libni.Spsc.LinkedList.Laws.{Contains, push_new}
use libni.Spsc.BufferList.{BufferList, push, next_to_write}
use libni.Spsc.BufferList.Rings.{
  last_buffer, Other, last_buffer-append, Rings, Rings-update, last_ring, pushed_more, Rings-pushed,
  Rings-added,
}

module _ {A : Type 0} ⦃s : Slot A⦄ where
  -- The list holds `q`, oldest element first: in the ring that is read and in those of `us`, nodes
  -- of m_in_use with their buffers. `nodes` and `spare` are what the two caches hold.
  pub record Stores (b : BufferList A) (nodes spare : List ℕ) (us : List (ℕ × ℕ)) (q : List A)
      : Type 0 where
    pub rings : Rings b.buffers b.m_buf_to_read us q
    pub write : b.m_buf_to_write ≡ last_buffer b.m_buf_to_read us
    pub nonzero : b.m_buf_to_read ≢ 0
    pub in_use : Contains b.m_in_use nodes us
    pub cache : Holds b.m_cache spare

  module _ {b : BufferList A} {us : List (ℕ × ℕ)} {q : List A} (node address : ℕ) (buffer : Ring A)
      (x : A) (h : Stores b [] [] us q) (ne : x ≢ s.empty) where
    push_room :
        (r : Ring A)
        → b.buffers b.m_buf_to_write ≡ some r
        → Ring.available r ≡ true
        → push node address buffer x b
          ≡ some (record b { buffers = update b.buffers b.m_buf_to_write (some (Ring.push x r).1) })
    unfolding push
    push_room r here room =
        rw (push, here, room)
          (ap
            (λ o. o >>= (λ w.
              some (record b {
                buffers = update b.buffers b.m_buf_to_write (some (Ring.push x w).1);
              })))
            here)

    room_left :
        (r : Ring A)
        → b.buffers b.m_buf_to_write ≡ some r
        → Ring.available r ≡ true
        → (e : BufferList A) × (us' : List (ℕ × ℕ)) × (push node address buffer x b ≡ some e)
          × Stores e [] [] us' (q ++ (x ∷ []))
    room_left r here room = (
      _,
      us,
      push_room r here room,
      record {
        rings =
            subst
              (λ w.
                Rings (update b.buffers w (some (Ring.push x r).1)) b.m_buf_to_read us
                  (q ++ (x ∷ [])))
              (sym h.write)
              (Rings-pushed b.buffers b.m_buf_to_read us q x r ne h.rings
                (ap b.buffers (sym h.write) ∙ here) room);
        write = h.write;
        nonzero = h.nonzero;
        in_use = h.in_use;
        cache = h.cache;
      },
    )

    -- The list after a new buffer was made.
    abbrev extended : LinkedList ℕ → BufferList A
    extended l = record b {
      m_in_use = l;
      m_cache = (Ring.pop b.m_cache).1;
      buffers = update b.buffers address (some buffer);
    }

    next_opens :
        (l : LinkedList ℕ)
        → LinkedList.push node address b.m_in_use ≡ some l
        → next_to_write node address buffer b ≡ some (address, extended l)
    unfolding next_to_write Queue.pop
    next_opens l pushes =
        let (answer, holds) = pop_refines h.cache in
        rw answer (ap (λ o. o >>= (λ t. some (address, extended t))) pushes)

    push_full :
        (r : Ring A) (l : LinkedList ℕ)
        → b.buffers b.m_buf_to_write ≡ some r
        → Ring.available r ≡ false
        → LinkedList.push node address b.m_in_use ≡ some l
        → push node address buffer x b
          ≡ some (record (extended l) {
            m_buf_to_write = address;
            buffers =
                update
                  (update b.buffers address (some buffer))
                  address
                  (some (Ring.push x buffer).1);
          })
    unfolding push
    push_full r l here none_left pushes =
        rw (push, here, none_left, next_opens l pushes)
          (ap
            (λ o. o >>= (λ w. some (record (extended l) {
              m_buf_to_write = address;
              buffers =
                  update (update b.buffers address (some buffer)) address (some (Ring.push x w).1);
            })))
            (update_self b.buffers address (some buffer)))

    added_rings :
        address ≢ 0
        → address ≢ b.m_buf_to_read
        → Other address us
        → Holds buffer []
        → Ring.available buffer ≡ true
        → Rings
            (update (update b.buffers address (some buffer)) address (some (Ring.push x buffer).1))
            b.m_buf_to_read
            (us ++ ((node, address) ∷ []))
            (q ++ (x ∷ []))
    added_rings nonzero other others bare room =
        let once =
          Rings-update b.buffers address (some buffer) b.m_buf_to_read us q other others h.rings in
        let twice =
          Rings-update (update b.buffers address (some buffer)) address
            (some (Ring.push x buffer).1) b.m_buf_to_read us q other others once in
        Rings-added _ b.m_buf_to_read us q x node address (Ring.push x buffer).1 twice nonzero other
          others
          (update_self (update b.buffers address (some buffer)) address
            (some (Ring.push x buffer).1))
          (pushed_more x bare ne room)

    none_left :
        node ≢ 0
        → b.m_in_use.heap node ≡ none
        → address ≢ 0
        → address ≢ b.m_buf_to_read
        → Other address us
        → Holds buffer []
        → Ring.available buffer ≡ true
        → (r : Ring A) → b.buffers b.m_buf_to_write ≡ some r
        → Ring.available r ≡ false
        → (e : BufferList A) × (us' : List (ℕ × ℕ)) × (push node address buffer x b ≡ some e)
          × Stores e [] [] us' (q ++ (x ∷ []))
    unfolding Queue.pop
    none_left node_nonzero free nonzero other others bare fits r here full =
        let (l, pushes, contains) = push_new node address h.in_use node_nonzero free in
        (
          _,
          us ++ ((node, address) ∷ []),
          push_full r l here full pushes,
          record {
            rings = added_rings nonzero other others bare fits;
            write = sym (last_buffer-append b.m_buf_to_read us (node, address));
            nonzero = h.nonzero;
            in_use = contains;
            cache = (pop_refines h.cache).1;
          },
        )

  -- While neither cache holds anything, with free addresses and an empty new ring, and for an
  -- element that is not `Empty`: push ends, the list then holds what it held and the element at the
  -- end, and neither cache holds anything.
  pub push-Stores :
      {b : BufferList A} {us : List (ℕ × ℕ)} {q : List A} (node address : ℕ) (buffer : Ring A)
      (x : A)
      → Stores b [] [] us q
      → x ≢ s.empty
      → node ≢ 0
      → b.m_in_use.heap node ≡ none
      → address ≢ 0
      → address ≢ b.m_buf_to_read
      → Other address us
      → Holds buffer []
      → (e : BufferList A) × (us' : List (ℕ × ℕ)) × (push node address buffer x b ≡ some e)
        × Stores e [] [] us' (q ++ (x ∷ []))
  push-Stores {b} {us} {q} node address buffer x h ne node_nonzero free nonzero other others bare =
      let (r, zs, last, holds) = last_ring b.buffers b.m_buf_to_read us q h.rings in
      let here = ap b.buffers h.write ∙ last in
      let fits : Ring.available buffer ≡ true =
        (queries_refine bare).1 ∙ lt→ltb 0 buffer.size (omega (arith, bare.read_in)) in
      elim (Bool-cases (Ring.available r)) [
        | inl room ↦ room_left node address buffer x h ne r here room
        | inr full ↦
            none_left node address buffer x h ne node_nonzero free nonzero other others bare fits r
              here full
      ]
