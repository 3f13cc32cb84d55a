-- ===== src/Tests/Poppers.antt =====
-- Threads in MSQueue::pop: one of two has taken the element; and one is about to read the old head.
use libni.Base.{
  ℕ, ◌+◌, ◌≡◌, ◌≢◌, refl, arith, false, List, [], ◌∷◌, ◌++◌, none, update, weigh, sum_to,
}
use libni.TaggedPtr
use libni.TaggedPtr.{value, of_value_tag}
use libni.TaggedPtr.Atomic.{
  single_word, load, differ, equal, compare_exchange_strong, compare_exchange_weak,
}
use libni.MsQueue.{Node, after}
use libni.MsQueue.Inv.{address, pointer, Holds}
use libni.MsQueue.Poppers.{
  Popping, idle, starting, head_loaded, tail_loaded, next_loaded, head_checked, value_read, took,
  System, call, load_head, load_tail, load_next, same_head, read_value, take, start_with, Run,
  start, later,
}
use libni.MsQueue.Poppers.Inv
use libni.MsQueue.Poppers.Once.{carried, pops_take_once}
use libni.MsQueue.Poppers.Freed.{pop_frees_read}
use libni.Tests.MsQueue.{cell, settled, elements, Holds-with}

abbrev dummy : Node ℕ
dummy = record { value = 0; next = cell 128 1 }

abbrev five : Node ℕ
five = record { value = 5; next = cell 0 0 }

abbrev loads : ℕ → Popping ℕ
loads =
    update (update (update (λ _. idle) 1 starting) 1 (head_loaded (pointer settled.m_head))) 1
      (tail_loaded (pointer settled.m_head) (pointer settled.m_tail))

abbrev reads : ℕ → Popping ℕ
reads =
    update
      (update
        (update loads 1
          (next_loaded (pointer settled.m_head) (pointer settled.m_tail) (pointer dummy.next)))
        1 (head_checked (pointer settled.m_head) (pointer settled.m_tail) (pointer dummy.next)))
      1 (value_read (pointer settled.m_head) (pointer dummy.next) 5)

abbrev loaded : System ℕ
loaded = record (start_with settled) { thread = loads }

loaded-Run : Run 2 (start_with settled) loaded
loaded-Run =
    later 1 (later 1 (later 1 start (call (omega arith) refl)) (load_head (omega arith) refl))
      (load_tail (pointer settled.m_head) (omega arith) refl)

abbrev taken : System ℕ
taken = record (start_with settled) {
  queue = record settled {
    m_head =
        (compare_exchange_weak false (pointer settled.m_head)
          (after (value (pointer dummy.next)) (pointer settled.m_head)) settled.m_head).2;
  };
  thread = update reads 1 (took (pointer settled.m_head) 5);
  taken = 5 ∷ [];
}

taken-Run : Run 2 (start_with settled) taken
unfolding load value TaggedPtr.of_raw differ equal TaggedPtr.equal compare_exchange_weak
    compare_exchange_strong
taken-Run =
    later 1
      (later 1
        (later 1
          (later 1 loaded-Run (
            load_next (pointer settled.m_head) (pointer settled.m_tail) dummy (omega arith) refl
              refl))
          (same_head (pointer settled.m_head) (pointer settled.m_tail) (pointer dummy.next)
            (omega arith) refl refl))
        (read_value (pointer settled.m_head) (pointer settled.m_tail) (pointer dummy.next) five
          (omega arith) refl (λ e. omega arith) refl))
      (take false (pointer settled.m_head) (pointer dummy.next) 5 (omega arith) refl refl)

pops_take_once_example :
    (rest : List (ℕ × ℕ)) × Holds taken.queue rest
    × (Inv.elements elements ≡ taken.taken ++ Inv.elements rest)
    × ((w : ℕ → ℕ)
        → weigh w taken.taken ≡ weigh w taken.returned + sum_to 2 (λ i. carried w (taken.thread i)))
pops_take_once_example = pops_take_once (Holds-with (cell 128 1)) refl taken-Run

apart : address settled.m_head ≢ address settled.m_tail
unfolding load value TaggedPtr.of_raw
apart e = omega arith

pop_frees_read_example :
    (u : System ℕ) × Run 2 loaded u
    × (u.returned ≡ 5 ∷ [])
    × Holds u.queue []
    × (u.thread 1 ≡ tail_loaded (pointer settled.m_head) (pointer settled.m_tail))
    × (u.queue.heap (address settled.m_head) ≡ none)
pop_frees_read_example =
    pop_frees_read 1 0 (pointer settled.m_tail) (omega arith) (λ e. omega arith)
      (Holds-with (cell 128 1)) apart refl refl
