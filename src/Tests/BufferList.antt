-- ===== src/Tests/BufferList.antt =====
-- include/ni/cds/spsc_buffer_list.hh: two rings, the first read to its end, the second with one
-- element.
use libni.Base.{ℕ, ◌≡◌, refl, arith, List, [], ◌∷◌, ◌++◌, Option, some, none, update}
use libni.Spsc.Ring.{Ring, pointer_slot}
use libni.Spsc.Queue
use libni.Spsc.BufferList.{BufferList, push, pop}
use libni.Spsc.BufferList.Rings.{last_buffer, Other, Rings, empty_no}
use libni.Spsc.BufferList.Laws.{Stores, push-Stores}
use libni.Spsc.BufferList.Pop.{pop-Stores}
use libni.Tests.Spsc.{four, one, four-Holds, one-Holds}
use libni.Tests.LinkedList.{elements, list_with, uncached}

abbrev rings : ℕ → Option (Ring ℕ)
rings = update (update (λ _. none) 256 (some four)) 5 (some one)

abbrev held : List ℕ
held = 48 ∷ []

abbrev buffered : BufferList ℕ
buffered = record {
  m_buf_to_read = 256;
  m_buf_to_write = 5;
  m_in_use = list_with four;
  m_cache = four;
  buffers = rings;
}

buffered-Stores : Stores buffered [] [] elements held
unfolding Rings Other last_buffer
buffered-Stores = record {
  rings = (
    four,
    [],
    48,
    [],
    refl,
    four-Holds,
    refl,
    omega arith,
    (omega arith, tt),
    (one, refl, empty_no one-Holds (λ e. cc e)),
    (one, refl, one-Holds),
  );
  write = refl;
  nonzero = omega arith;
  in_use = uncached;
  cache = four-Holds;
}

push-Stores_example :
    (e : BufferList ℕ) × (us : List (ℕ × ℕ)) × (push 64 512 four 7 buffered ≡ some e)
    × Stores e [] [] us (held ++ (7 ∷ []))
unfolding Other
push-Stores_example =
    push-Stores 64 512 four 7 buffered-Stores (omega arith) (omega arith) refl (omega arith)
      (omega arith) (omega arith, tt) four-Holds

pop-Stores_example :
    (e : BufferList ℕ) × (nodes spare : List ℕ) × (us : List (ℕ × ℕ)) × (pop buffered
      ≡ some ((Queue.pop 0 held).0, e))
    × Stores e nodes spare us (Queue.pop 0 held).1
pop-Stores_example = pop-Stores elements held buffered-Stores
