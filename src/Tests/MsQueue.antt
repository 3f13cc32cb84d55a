-- ===== src/Tests/MsQueue.antt =====
-- include/ni/cds/ms_queue.hh: a queue with one element, with `m_tail` at its node and one node
-- behind.
use libni.Base.{
  ℕ, ◌+◌, ◌*◌, ◌^◌, ◌≡◌, ◌⊎◌, inl, inr, refl, arith, Bool, true, false, ◌&&◌, List, [], ◌∷◌, ◌++◌,
  Option, some, none, update, ◌==◌, if◌then◌else◌,
}
use libni.Chain.{Chain, Apart, last_address, before_last, first_of, rest_of}
use libni.TaggedPtr
use libni.TaggedPtr.{TaggedPtr, value, of_value_tag}
use libni.TaggedPtr.Atomic.{AtomicTaggedPtr, single_word, load}
use libni.MsQueue.{Node, MsQueue, create, destroy, push, tail_state, try_push, pop}
use libni.MsQueue.Inv.{address, Holds, Settled, Lagging}
use libni.MsQueue.PushLoop
use libni.MsQueue.Push.{push_appends}
use libni.MsQueue.Front
use libni.MsQueue.Front.{state_of, freed}
use libni.MsQueue.Pop.{pop_oldest}
use libni.MsQueue.Try.{try_push_lem}
use libni.MsQueue.Ends.{destroy_leaks}

-- The word of a pointer with a tag.
abbrev pub cell : ℕ → ℕ → AtomicTaggedPtr
cell v t = record { m_raw_value = t * 2 ^ 48 + v }

abbrev nodes : ℕ → Option (Node ℕ)
nodes =
    update (update (λ _. none) 64 (some (record { value = 0; next = cell 128 1 }))) 128
      (some (record { value = 5; next = cell 0 0 }))

abbrev with_tail : AtomicTaggedPtr → MsQueue ℕ
with_tail t = record { m_head = cell 64 0; m_tail = t; heap = nodes }

abbrev pub settled : MsQueue ℕ
settled = with_tail (cell 128 1)

abbrev lagging : MsQueue ℕ
lagging = with_tail (cell 64 0)

abbrev pub elements : List (ℕ × ℕ)
elements = (128, 5) ∷ []

pub Holds-with : (t : AtomicTaggedPtr) → Holds (with_tail t) elements
unfolding Chain Apart load value TaggedPtr.of_raw
Holds-with t = record {
  first = 0;
  head_address = omega arith;
  chain = (
    record { value = 0; next = cell 128 1 },
    refl,
    refl,
    refl,
    omega arith,
    (omega arith, tt),
    (record { value = 5; next = cell 0 0 }, refl, refl, refl),
  );
}

settled-Settled : Settled settled elements
unfolding load value TaggedPtr.of_raw last_address
settled-Settled = refl

lagging-Lagging : Lagging lagging elements
unfolding load value TaggedPtr.of_raw before_last
lagging-Lagging = refl

-- The first turn fails, the second helps, the third loads the tail again, the fourth links.
abbrev turns : List (Bool × Bool)
turns = (true, true) ∷ (false, false) ∷ (false, false) ∷ (false, false) ∷ []

push_appends_example :
    (q : MsQueue ℕ) × (push turns 192 7 lagging ≡ some (true, q))
    × Holds q (elements ++ ((192, 7) ∷ []))
    × (Settled q (elements ++ ((192, 7) ∷ [])) ⊎ Lagging q (elements ++ ((192, 7) ∷ [])))
unfolding PushLoop.spurious
push_appends_example =
    push_appends turns 192 7 (Holds-with (cell 64 0)) (inr lagging-Lagging) (omega arith)
      (omega arith) refl (omega arith)

pop_oldest_example :
    (q : MsQueue ℕ) × (pop (true ∷ false ∷ false ∷ []) lagging
      ≡ some (first_of elements, state_of lagging elements, q))
    × Holds q (rest_of elements)
    × (Settled q (rest_of elements) ⊎ Lagging q (rest_of elements))
    × (q.heap ≡ freed lagging elements)
unfolding Front.spurious
pop_oldest_example =
    pop_oldest elements (true ∷ false ∷ false ∷ []) (Holds-with (cell 64 0)) (inr lagging-Lagging)
      (omega arith)

try_push_lem_example :
    (b : Bool) × (q : MsQueue ℕ) × (try_push 192 7 1 settled ≡ some (b, q))
    × (b ≡ (
        (tail_state settled == 1)
        && (address (cell 128 1) == last_address (address (cell 64 0)) elements)))
    × Holds q (if b then elements ++ ((192, 7) ∷ []) else elements)
    × (Settled q (if b then elements ++ ((192, 7) ∷ []) else elements)
        ⊎ Lagging q (if b then elements ++ ((192, 7) ∷ []) else elements))
try_push_lem_example =
    try_push_lem elements 192 7 1 (Holds-with (cell 128 1)) (inl settled-Settled) (omega arith)
      (omega arith) refl

destroy_leaks_example :
    (heap : ℕ → Option (Node ℕ)) × (n : Node ℕ) × (destroy 1 lagging ≡ some heap)
    × (heap (last_address (address (cell 64 0)) elements) ≡ some n)
destroy_leaks_example = destroy_leaks (Holds-with (cell 64 0)) lagging-Lagging

abbrev made : MsQueue ℕ
made = create 64 0 (λ _. none)
