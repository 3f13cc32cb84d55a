-- ===== src/Tests/Pushers.antt =====
-- Threads in MSQueue::push: one of two has linked its node, and not returned.
use libni.Base.{
  ℕ, ◌+◌, ◌*◌, ◌≡◌, refl, arith, false, [], ◌∷◌, ◌++◌, length, some, inr, update, weigh, sum_to,
}
use libni.Chain.Among.{Among}
use libni.TaggedPtr
use libni.TaggedPtr.{value, of_value_tag}
use libni.TaggedPtr.Atomic.{
  single_word, load, differ, equal, compare_exchange_strong, compare_exchange_weak,
}
use libni.MsQueue.{Node, node_of}
use libni.MsQueue.Inv.{address, pointer, Holds}
use libni.MsQueue.Threads.{
  idle, loading, loaded, read_next, checked, linked, System, exchange_next, new_node, load_tail,
  load_next, same_tail, link, start_with, Reach, start, later,
}
use libni.MsQueue.Threads.Linked.{flying, Readable, pushes_link_once}
use libni.MsQueue.Threads.Solo.{Returns}
use libni.MsQueue.Threads.Progress.{push-Returns}
use libni.Tests.MsQueue.{cell, settled, elements, Holds-with}

abbrev last : Node ℕ
last = record { value = 5; next = cell 0 0 }

abbrev made : System ℕ
made = record (start_with settled) {
  queue = record settled { heap = update settled.heap 192 (some (node_of 7)) };
  thread = update (λ _. idle) 1 (loading 192 7);
}

abbrev tail_read : System ℕ
tail_read = record made { thread = update made.thread 1 (loaded 192 7 (pointer settled.m_tail)) }

abbrev next_read : System ℕ
next_read = record tail_read {
  thread = update tail_read.thread 1 (read_next 192 7 (pointer settled.m_tail) (pointer last.next));
}

abbrev compared : System ℕ
compared = record next_read {
  thread = update next_read.thread 1 (checked 192 7 (pointer settled.m_tail) (pointer last.next));
}

abbrev joined : System ℕ
joined = record compared {
  queue = record (compared.queue) {
    heap =
        update compared.queue.heap (value (pointer settled.m_tail))
          (some (exchange_next false 192 (pointer last.next) last).1);
  };
  thread = update compared.thread 1 (linked 192 7 (pointer settled.m_tail));
  pushed = compared.pushed ++ ((192, 7) ∷ []);
}

joined-Reach : Reach 2 settled joined
unfolding load value TaggedPtr.of_raw differ equal TaggedPtr.equal compare_exchange_weak
    compare_exchange_strong
joined-Reach =
    later 1
      (later 1
        (later 1
          (later 1
            (later 1 start (new_node 192 7 (omega arith) refl (omega arith) (omega arith) refl))
            (load_tail 192 7 (omega arith) refl))
          (load_next 192 7 (pointer settled.m_tail) last (omega arith) refl refl))
        (same_tail 192 7 (pointer settled.m_tail) (pointer last.next) (omega arith) refl refl))
      (link false 192 7 (pointer settled.m_tail) (pointer last.next) last (omega arith) refl refl
        refl refl)

tail-Among : Among (address settled.m_tail) (address settled.m_head) elements
unfolding Among load value TaggedPtr.of_raw
tail-Among = inr refl

pushes_link_once_example :
    Holds joined.queue (elements ++ joined.pushed)
    × ((i : ℕ) → Readable joined.queue (joined.thread i))
    × ((w : ℕ → ℕ)
        → weigh (λ (e : ℕ × ℕ). w e.1) joined.pushed
          ≡ weigh w joined.returned + sum_to 2 (λ i. flying w (joined.thread i)))
pushes_link_once_example = pushes_link_once (Holds-with (cell 128 1)) tail-Among joined-Reach

push-Returns_example : Returns 2 1 (9 + 6 * length (elements ++ joined.pushed)) joined
push-Returns_example = push-Returns (omega arith) (Holds-with (cell 128 1)) tail-Among joined-Reach
