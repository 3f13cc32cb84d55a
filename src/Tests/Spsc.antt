-- ===== src/Tests/Spsc.antt =====
-- include/ni/cds/spsc_ring_buffer.hh: a ring of four pointers.
use libni.Base.{ℕ, zero, suc, ◌<◌, ◌≤◌, ◌≡◌, refl, arith, true, List, [], ◌∷◌, ◌++◌, length, update}
use libni.Spsc.Ring.{slot_at, Ring, is_power_of_two, pointer_slot}
use libni.Spsc.Ring.Inv.{around, Holds}
use libni.Spsc.Ring.Refine.{pushed, pushed-Holds}
use libni.Spsc.Ring.Reset.{is_power_of_two_iff}
use libni.Spsc.Ring.Run.{Call, put, take, forget, run, run_queue, run_refines}
use libni.Spsc.Threads.{
  Pushing, found_room, stored, cleared, System, check_room, store_slot, advance_write, find,
  clear_slot, Reach, start, later,
}
use libni.Spsc.Threads.Inv.{NoneEmpty}
use libni.Spsc.Threads.Fifo.{PopAgrees, PushAgrees, fifo_of_reach}
use libni.Spsc.Threads.Race.{Lost, two_producers_lose}

abbrev pub four : Ring ℕ
four = record { write_index = 0; read_index = 0; size = 4; mask = 3; buf = 0 ∷ 0 ∷ 0 ∷ 0 ∷ [] }

zeros : (j : ℕ) → j < 4 → slot_at four (around 4 0 j) ≡ 0
zeros zero h = refl
zeros (suc zero) h = refl
zeros (suc (suc zero)) h = refl
zeros (suc (suc (suc zero))) h = refl
zeros (suc (suc (suc (suc j)))) h = absurd (omega arith)

abbrev one_element : List ℕ
one_element = 48 ∷ []

abbrev pub one : Ring ℕ
one = pushed 48 four

pub four-Holds : Holds four []
four-Holds = record {
  exponent = 2;
  bounds = (omega arith, omega arith);
  sized = refl;
  masked = refl;
  slots = refl;
  read_in = omega arith;
  write_at = refl;
  room = omega arith;
  full = λ j lt. absurd (omega arith);
  content = zeros;
}

pub one-Holds : Holds one one_element
one-Holds = pushed-Holds 48 four-Holds (omega arith) (omega arith)

four_is_power : is_power_of_two 4 ≡ true
four_is_power = (is_power_of_two_iff 4).1 (2, omega arith, refl)

abbrev calls : List (Call ℕ)
calls = put 16 ∷ put 32 ∷ take ∷ put 80 ∷ forget ∷ take ∷ []

run_refines_example : run four calls ≡ run_queue 4 [] calls
run_refines_example =
    run_refines calls four [] four-Holds (omega arith, (omega arith, (omega arith, tt)))

two_producers_lose_example : Lost one one_element 64 80
two_producers_lose_example =
    two_producers_lose 64 80 one-Holds (omega arith) (omega arith) (omega arith)

-- The producer pushes 16, the consumer takes it while the producer is in the push of 32, which it
-- has stored.
abbrev racing : System ℕ
racing = record {
  ring = record four { buf = 0 ∷ 32 ∷ 0 ∷ 0 ∷ []; write_index = 1 };
  producer =
      update
        (update
          (update (update (update (λ _. Pushing.idle) 0 (found_room 16)) 0 (stored 16)) 0
            Pushing.idle)
          0 (found_room 32))
        0 (stored 32);
  consumer = cleared 16;
  given = 16 ∷ 32 ∷ [];
  taken = 16 ∷ [];
}

racing-Reach : Reach 1 four racing
racing-Reach =
    later
      (later
        (later
          (later
            (later
              (later (later start (check_room 0 16 (omega arith) refl refl))
                (store_slot 0 16 (omega arith) refl))
              (advance_write 0 16 (omega arith) refl))
            (check_room 0 32 (omega arith) refl refl))
          (find refl (λ e. omega arith)))
        (clear_slot 16 refl))
      (store_slot 0 32 (omega arith) refl)

racing-NoneEmpty : NoneEmpty racing.given
unfolding NoneEmpty
racing-NoneEmpty = (omega arith, (omega arith, tt))

fifo_of_reach_example :
    (q : List ℕ) × (16 ∷ 32 ∷ [] ≡ (16 ∷ []) ++ q)
    × (length q ≤ 4)
    × PopAgrees racing.ring q (cleared 16)
    × PushAgrees racing.ring q (stored 32)
fifo_of_reach_example = fifo_of_reach four-Holds racing-Reach racing-NoneEmpty
