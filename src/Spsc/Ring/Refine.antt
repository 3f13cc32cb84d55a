-- ===== src/Spsc/Ring/Refine.antt =====
-- Each method of SPSCRingBuffer does to the ring what its specification does to the queue it holds.
use native.Mathlib.Nat.{mod-lt}
use native.Mathlib.Numerals.{add-one}
use mathlib.Core.Logic.{ite, if_pos, if_neg}
use mathlib.Core.Bool.{false≢true}
use libni.Base.{
  ℕ, suc, ◌+◌, ◌%◌, ◌<◌, ◌≡◌, ◌≢◌, ◌↔◌, refl, sym, ap, ◌∙◌, arith, true, false, List, [], ◌∷◌, ◌++◌,
  dec_lt, ℕ_discrete, bit_and, ltb, lt→ltb, not-ltb, length, get_or, set, length-append, length-set,
  get_or-set_self, get_or-set_ne, u64,
}
use libni.Spsc.Ring.{Slot, Ring, slot_at, empty, available, len, push, pop, top}
use libni.Spsc.Ring.Inv.{
  around, around-zero, around_lem, around_full, around_inj, around-suc, around_next,
  get_or-append_one, get_or_outside, Holds, in_bounds, next_index, read_slot, write_free,
  write_taken, NoEmpty-append,
}
use libni.Spsc.Queue

module _ {A : Type 0} ⦃s : Slot A⦄ where
  -- The ring after a `push` that finds room, and after a `pop` that finds an element.
  abbrev pub pushed : A → Ring A → Ring A
  pushed x r = record r {
    buf = set r.buf r.write_index x;
    write_index = bit_and (u64 (r.write_index + 1)) r.mask;
  }

  abbrev pub popped : Ring A → Ring A
  popped r = record r {
    buf = set r.buf r.read_index s.empty;
    read_index = bit_and (u64 (r.read_index + 1)) r.mask;
  }

  pub pop_none : (r : Ring A) → slot_at r r.read_index ≡ s.empty → pop r ≡ (s.empty, r)
  unfolding pop
  pop_none r e =
      if_pos (s.same (slot_at r r.read_index) s.empty) e (s.empty, r)
        (slot_at r r.read_index, popped r)

  pop_some :
      (r : Ring A) → slot_at r r.read_index ≢ s.empty → pop r ≡ (slot_at r r.read_index, popped r)
  unfolding pop
  pop_some r ne =
      if_neg (s.same (slot_at r r.read_index) s.empty) ne (s.empty, r)
        (slot_at r r.read_index, popped r)

module _ {A : Type 0} ⦃s : Slot A⦄ {r : Ring A} where
  available_free : {q : List A} → Holds r q → length q < r.size → available r ≡ true
  unfolding available
  available_free h lt =
      if_pos (s.same (slot_at r r.write_index) s.empty) (write_free h lt) true false

  available_full : {q : List A} → Holds r q → length q ≡ r.size → available r ≡ false
  unfolding available
  available_full h e =
      if_neg (s.same (slot_at r r.write_index) s.empty) (write_taken h e) true false

  pub pushed-content :
      {q : List A} (x : A)
      → Holds r q
      → length q < r.size
      → (j : ℕ) → j < r.size
      → slot_at (pushed x r) (around r.size r.read_index j) ≡ get_or (q ++ (x ∷ [])) j s.empty
  pushed-content {q} x h lt j lj = elim (ℕ_discrete j (length q)) [
    | yes e ↦ ground (
      arith,
      get_or-append_one q x s.empty j,
      ap (around r.size r.read_index) e,
      h.write_at,
      in_bounds h,
      get_or-set_self r.buf r.write_index x s.empty,
    )
    | no n ↦ ground (
      arith,
      get_or-append_one q x s.empty j,
      h.write_at,
      h.content j,
      around_inj r.size r.read_index j (length q) h.read_in lj lt,
      get_or-set_ne r.buf r.write_index (around r.size r.read_index j) x s.empty,
    )
  ]

  pub pushed-Holds :
      {q : List A} (x : A)
      → Holds r q
      → x ≢ s.empty
      → length q < r.size
      → Holds (pushed x r) (q ++ (x ∷ []))
  pushed-Holds {q} x h ne lt = record {
    exponent = h.exponent;
    bounds = h.bounds;
    sized = h.sized;
    masked = h.masked;
    slots = length-set r.buf r.write_index x ∙ h.slots;
    read_in = h.read_in;
    write_at =
        next_index h r.write_index (omega (arith, in_bounds h, h.slots))
        ∙ ap (λ (t : ℕ). (t + 1) % r.size) h.write_at
        ∙ around_next r.size r.read_index (length q)
        ∙ ap (around r.size r.read_index) longer;
    room = omega (arith, length-append q (x ∷ []));
    full = NoEmpty-append q x h.full ne;
    content = pushed-content x h lt;
  }
    where
      longer : length q + 1 ≡ length (q ++ (x ∷ []))
      longer = omega (arith, length-append q (x ∷ []))

  popped-content :
      {q : List A} (x : A)
      → Holds r (x ∷ q)
      → (j : ℕ) → j < r.size
      → slot_at (popped r) (around r.size ((r.read_index + 1) % r.size) j) ≡ get_or q j s.empty
  popped-content {q} x h j lj =
      ap (slot_at (popped r)) (around-suc r.size r.read_index j) ∙ (elim (dec_lt (j + 1) r.size) [
        | yes lt ↦
            get_or-set_ne r.buf r.read_index _ s.empty s.empty (apart lt)
            ∙ h.content (j + 1) lt
            ∙ ap (λ (t : ℕ). get_or (x ∷ q) t s.empty) (add-one j)
        | no last ↦
            ap (slot_at (popped r)) (
              ap (around r.size r.read_index) (whole last)
              ∙ around_full r.size r.read_index h.read_in)
            ∙ get_or-set_self r.buf r.read_index s.empty s.empty (omega (arith, in_bounds h))
            ∙ sym (get_or_outside q s.empty j (omega arith))
      ])
    where
      apart : j + 1 < r.size → r.read_index ≢ around r.size r.read_index (j + 1)
      apart lt e = absurd (
          omega (
            arith,
            around_inj r.size r.read_index 0 (j + 1) h.read_in (omega arith) lt
                (around-zero r.size r.read_index h.read_in ∙ e),
          ))

      whole : ¬ (j + 1 < r.size) → j + 1 ≡ r.size
      whole last = omega arith

  pub popped-Holds : {q : List A} (x : A) → Holds r (x ∷ q) → Holds (popped r) q
  popped-Holds {q} x h = record {
    exponent = h.exponent;
    bounds = h.bounds;
    sized = h.sized;
    masked = h.masked;
    slots = length-set r.buf r.read_index s.empty ∙ h.slots;
    read_in = rw (next_index h r.read_index h.read_in) (mod-lt (r.read_index + 1) (omega arith));
    write_at =
        h.write_at
        ∙ ap (around r.size r.read_index) (sym (add-one (length q)))
        ∙ sym (around-suc r.size r.read_index (length q))
        ∙ ap (λ (t : ℕ). around r.size t (length q)) (sym (next_index h r.read_index h.read_in));
    room = omega arith;
    full = λ j lt. h.full (suc j) (omega arith);
    content = rw (next_index h r.read_index h.read_in) (popped-content x h);
  }

  -- A `push` of an element other than `Empty` answers as the bounded queue does and leaves the ring
  -- holding what the queue then holds: the element is added at the end, or the ring is full and
  -- nothing changes.
  pub push_refines :
      {q : List A} (x : A)
      → Holds r q
      → x ≢ s.empty
      → ((push x r).0 ≡ (Queue.push r.size x q).0) × Holds (push x r).1 (Queue.push r.size x q).1
  unfolding push Queue.push
  push_refines {q} x h ne = elim (dec_lt (length q) r.size) [
    | yes lt ↦ rw (available_free h lt, lt→ltb (length q) r.size lt) (refl, pushed-Holds x h ne lt)
    | no n ↦ rw (available_full h (omega arith), not-ltb (length q) r.size n) (refl, h)
  ]

  empty_iff : (q : List A) → Holds r q → (empty r ≡ true) ↔ (q ≡ [])
  unfolding empty
  empty_iff [] h =
      (λ _. refl, λ _. if_pos (s.same (slot_at r r.read_index) s.empty) (read_slot h) true false)
  empty_iff (x ∷ q) h = (λ e. absurd (false≢true (sym full ∙ e)), λ e. cc)
    where
      full : ite (s.same (slot_at r r.read_index) s.empty) true false ≡ false
      full =
          if_neg (s.same (slot_at r r.read_index) s.empty)
            (λ e. h.full 0 (omega arith) (sym (read_slot h) ∙ e)) true false

  -- A `pop` answers as the bounded queue does, with `Empty` for an empty queue, and leaves the ring
  -- holding what the queue then holds.
  pub pop_refines :
      {q : List A}
      → Holds r q
      → ((pop r).0 ≡ (Queue.pop s.empty q).0) × Holds (pop r).1 (Queue.pop s.empty q).1
  unfolding Queue.pop
  pop_refines {q = []} h = rw (pop_none r (read_slot h)) (refl, h)
  pop_refines {q = x ∷ q} h =
      rw (pop_some r (λ e. h.full 0 (omega arith) (sym (read_slot h) ∙ e)))
        (read_slot h, popped-Holds x h)

  -- The queries: `empty`, `available`, `len` and `top` say of the ring what is true of its queue.
  pub queries_refine :
      {q : List A}
      → Holds r q
      → ((empty r ≡ true) ↔ (q ≡ []))
        × (available r ≡ ltb (length q) r.size)
        × (len r ≡ length q)
        × (top r ≡ get_or q 0 s.empty)
  unfolding empty len top
  queries_refine {q} h = (
    empty_iff q h,
    (elim (dec_lt (length q) r.size) [
      | yes lt ↦ rw (available_free h lt, lt→ltb (length q) r.size lt) refl
      | no n ↦ rw (available_full h (omega arith), not-ltb (length q) r.size n) refl
    ]),
    (elim (dec_lt (length q) r.size) [
      | yes lt ↦ ground (
        arith,
        h.write_at,
        around_lem r.size r.read_index (length q) h.read_in lt,
        write_free h lt,
      )
      | no n ↦ ground (
        arith,
        h.write_at,
        around_full r.size r.read_index h.read_in,
        ap (around r.size r.read_index) (whole n),
        write_taken h,
      )
    ]),
    read_slot h,
  )
    where
      whole : ¬ (length q < r.size) → length q ≡ r.size
      whole n = omega arith
