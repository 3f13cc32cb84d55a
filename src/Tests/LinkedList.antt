-- ===== src/Tests/LinkedList.antt =====
-- include/ni/cds/spsc_linked_list.hh: a list with one element, with an empty and a filled cache.
use libni.Base.{ℕ, ◌≡◌, refl, arith, List, [], ◌∷◌, ◌++◌, Option, some, none, update}
use libni.Spsc.Ring.{Ring, pointer_slot}
use libni.Spsc.LinkedList.{Node, LinkedList, create, fill_cache, push, pop, destroy}
use libni.Spsc.LinkedList.Filled.{filled_loses_first}
use libni.Chain.{Cleared, Chain, Apart, last_address, first_of, rest_of}
use libni.Spsc.LinkedList.Laws.{Contains, push_new, pop_lem, cached_after, heap_after, push_forgets}
use libni.Spsc.Ring.Inv.{Holds}
use libni.Spsc.LinkedList.Ends.{Fresh, Outside, NotCached, Emptied, linked_list_destroy_lem}
use libni.Tests.Spsc.{four, one, four-Holds, one-Holds}

abbrev nodes : ℕ → Option (Node ℕ)
nodes =
    update (update (λ _. none) 16 (some (record { element = 0; next = 32 }))) 32
      (some (record { element = 5; next = 0 }))

abbrev pub list_with : Ring ℕ → LinkedList ℕ
list_with cache = record { m_head = 16; m_tail = 32; m_cache = cache; heap = nodes }

abbrev pub elements : List (ℕ × ℕ)
elements = (32, 5) ∷ []

pub uncached : Contains (list_with four) [] elements
unfolding Chain Apart last_address
uncached = record {
  first = 0;
  head_address = omega arith;
  chain = (
    record { element = 0; next = 32 },
    refl,
    refl,
    refl,
    omega arith,
    (omega arith, tt),
    (record { element = 5; next = 0 }, refl, refl, refl),
  );
  tail = refl;
  cache = four-Holds;
}

cached : Contains (list_with one) (48 ∷ []) elements
unfolding Chain Apart last_address
cached = record {
  first = 0;
  head_address = omega arith;
  chain = (
    record { element = 0; next = 32 },
    refl,
    refl,
    refl,
    omega arith,
    (omega arith, tt),
    (record { element = 5; next = 0 }, refl, refl, refl),
  );
  tail = refl;
  cache = one-Holds;
}

push_new_example :
    (l : LinkedList ℕ) × (push 64 7 (list_with four) ≡ some l)
    × Contains l [] (elements ++ ((64, 7) ∷ []))
push_new_example = push_new 64 7 uncached (omega arith) refl

pop_lem_example :
    (l : LinkedList ℕ) × (pop (list_with one) ≡ some (first_of elements, l))
    × Contains l (cached_after (list_with one) (48 ∷ []) elements) (rest_of elements)
    × (l.heap ≡ heap_after (list_with one) (48 ∷ []) elements)
pop_lem_example = pop_lem elements cached

-- The cached node was a head once, and still leads to the node after it.
abbrev recycling : LinkedList ℕ
recycling = record (list_with one) {
  heap = update nodes 48 (some (record { element = 9; next = 16 }));
}

recycled : Contains recycling (48 ∷ []) elements
unfolding Chain Apart last_address
recycled = record {
  first = 0;
  head_address = omega arith;
  chain = (
    record { element = 0; next = 32 },
    refl,
    refl,
    refl,
    omega arith,
    (omega arith, tt),
    (record { element = 5; next = 0 }, refl, refl, refl),
  );
  tail = refl;
  cache = one-Holds;
}

push_forgets_example :
    (l : LinkedList ℕ) × (last : Node ℕ) × (push 64 7 recycling ≡ some l)
    × (push 64 8 recycling ≡ some l)
    × (l.m_head ≡ 16)
    × (l.m_tail ≡ 48)
    × (recycling.heap 32 ≡ some last)
    × (l.heap 32 ≡ some (record last { next = 48 }))
    × (l.heap 48 ≡ some (record { element = 9; next = 16 }))
    × Holds l.m_cache []
push_forgets_example =
    push_forgets 64 7 8 (record { element = 9; next = 16 }) recycled (omega arith) refl

cached-Outside : Outside (48 ∷ []) 16 elements
unfolding Outside Apart
cached-Outside = (omega arith, (omega arith, tt), tt)

away : Apart 80 elements
unfolding Apart
away = (omega arith, tt)

not_cached : NotCached 80 (48 ∷ [])
unfolding NotCached
not_cached = (omega arith, tt)

linked_list_destroy_lem_example :
    (heap : ℕ → Option (Node ℕ)) × (destroy 3 (list_with one) ≡ some heap)
    × Cleared heap 16 elements
    × Emptied heap (48 ∷ [])
    × (heap 80 ≡ nodes 80)
linked_list_destroy_lem_example =
    linked_list_destroy_lem 80 cached cached-Outside (omega arith) away not_cached

-- A list made at 16, and two nodes for its cache.
abbrev nowhere : ℕ → Option (Node ℕ)
nowhere = λ _. none

abbrev made : LinkedList ℕ
made = create 16 0 four nowhere

made_Fresh : Fresh made.heap (48 ∷ 64 ∷ [])
unfolding Fresh NotCached create
made_Fresh = (omega arith, refl, (omega arith, tt), (omega arith, refl, tt, tt))

filled_loses_first_example :
    (l : LinkedList ℕ) × (k : LinkedList ℕ) × Contains
      (fill_cache (48 ∷ 64 ∷ []) 0 made)
      (48 ∷ 64 ∷ [])
      []
    × (push 80 7 (fill_cache (48 ∷ 64 ∷ []) 0 made) ≡ some l)
    × (pop l ≡ some (some 0, k))
filled_loses_first_example =
    filled_loses_first 80 16 48 (64 ∷ []) 0 7 four nowhere (omega arith) four-Holds made_Fresh
      (omega arith)
