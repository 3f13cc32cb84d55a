-- ===== src/Tests/Distributed.antt =====
-- include/ni/cds/distributed/dynamic.hh over lists: two slots, the first of a thread that has left.
use libni.Base.{
  ℕ, zero, suc, ◌<◌, ◌≡◌, ◌↔◌, refl, arith, Bool, true, false, List, [], ◌∷◌, ◌++◌, length, Option,
  none, some, update,
}
use libni.Distributed.Backend.{Backend, front}
use libni.Distributed.Dynamic.{Node, Dynamic, put, get, deregister_thread}
use libni.Distributed.Dynamic.Segment.{Sound}
use libni.Distributed.Dynamic.Put.{Owner, unregistered, bound, PutInto, put_adds}
use libni.Distributed.Dynamic.Get.{Got, get_takes}
use libni.Distributed.Dynamic.Leave.{Leaves, deregister-Leaves}

abbrev is_empty : List ℕ → Bool
is_empty [] = true
is_empty (x ∷ xs) = false

abbrev take_first : List ℕ → Option ℕ × List ℕ
take_first [] = (none, [])
take_first (x ∷ xs) = (some x, xs)

is_empty_iff : (b : List ℕ) → (is_empty b ≡ true) ↔ (b ≡ [])
is_empty_iff [] = (λ e. refl, λ e. refl)
is_empty_iff (x ∷ xs) = (λ e. cc e, λ e. cc e)

take_first_lem : (b : List ℕ) → b ≡ front (take_first b).0 ++ (take_first b).1
take_first_lem [] = refl
take_first_lem (x ∷ xs) = refl

take_first-none :
    (b : List ℕ) → (take_first b).0 ≡ none → (b ≡ []) × (length (take_first b).1 ≡ length b)
take_first-none [] e = (refl, refl)
take_first-none (x ∷ xs) e = cc e

abbrev queue : Backend (List ℕ) ℕ
queue = record {
  new = [];
  empty = is_empty;
  put = λ x b. (true, b ++ (x ∷ []));
  get = take_first;
  pop = λ b. ((take_first b).0, length b, (take_first b).1);
  tail_state = length;
  contents = λ b. b;
  new_lem = refl;
  empty_iff = is_empty_iff;
  put_lem = λ x b. refl;
  get_lem = take_first_lem;
  pop_lem = take_first_lem;
  pop_none = take_first-none;
}

abbrev first_two : ℕ → ℕ
first_two = update (update (λ _. 0) 0 64) 1 128

abbrev two : Dynamic (List ℕ)
two = record {
  m_segment = first_two;
  m_segment_capacity = 2;
  m_segment_length = 2;
  m_version = 2;
  node_at =
      update (update (λ _. none) 64 (some (record { backend = []; alive = false }))) 128
        (some (record { backend = 5 ∷ []; alive = true }));
}

two-Sound : Sound queue two
two-Sound = record { within = omega arith; nonnull = full; stands = nodes; distinct = apart }
  where
    full : (i : ℕ) → i < 2 → first_two i ≡ 0 → ⊥
    full zero lt e = absurd (omega arith)
    full (suc zero) lt e = absurd (omega arith)
    full (suc (suc i)) lt e = absurd (omega arith)

    nodes : (i : ℕ) → i < 2 → (n : Node (List ℕ)) × (two.node_at (first_two i) ≡ some n)
    nodes zero lt = (_, refl)
    nodes (suc zero) lt = (_, refl)
    nodes (suc (suc i)) lt = absurd (omega arith)

    apart : (i j : ℕ) → i < 2 → j < 2 → first_two i ≡ first_two j → i ≡ j
    apart zero zero lt below e = refl
    apart zero (suc zero) lt below e = absurd (omega arith)
    apart (suc zero) zero lt below e = absurd (omega arith)
    apart (suc zero) (suc zero) lt below e = refl
    apart (suc (suc i)) j lt below e = absurd (omega arith)
    apart i (suc (suc j)) lt below e = absurd (omega arith)

second-Owner : Owner queue two 128
second-Owner = bound 1 (record { backend = 5 ∷ []; alive = true }) (omega arith) refl refl refl

-- The segment is full, and the slot of the thread that has left is given up.
put_adds_example :
    (ok : Bool) × (p : ℕ) × (e : Dynamic (List ℕ)) × (put queue 192 0 7 two ≡ some (ok, p, e))
    × PutInto queue two 7 ok p e
put_adds_example = put_adds queue two two-Sound 192 0 7 (omega arith) refl (unregistered refl)

get_takes_example :
    (o : Option ℕ) × (e : Dynamic (List ℕ)) × (get queue (4 ∷ 7 ∷ 3 ∷ []) 0 two ≡ some (o, e))
    × Got queue two o e
get_takes_example =
    get_takes queue (4 ∷ 7 ∷ 3 ∷ []) two two-Sound 0 (unregistered refl) (omega arith)

deregister-Leaves_example :
    (e : Dynamic (List ℕ)) × (deregister_thread queue 128 two ≡ some (0, e))
    × Leaves queue two 128 (record { backend = 5 ∷ []; alive = true }) e
deregister-Leaves_example =
    deregister-Leaves queue two two-Sound 1 128 (record { backend = 5 ∷ []; alive = true })
      (omega arith) refl refl
