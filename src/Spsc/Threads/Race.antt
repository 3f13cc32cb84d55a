-- ===== src/Spsc/Threads/Race.antt =====
-- Two producers on one ring, as when two threads ask a MessageBus for their first channel at once.
use libni.Base.{
  ℕ, ◌<◌, ◌≡◌, ◌≢◌, refl, ap, ◌∙◌, arith, List, [], ◌∷◌, ◌++◌, length, get_or, set-set,
}
use libni.Spsc.Ring.{Slot, Ring, slot_at}
use libni.Spsc.Ring.Inv.{around, Holds, write_free}
use libni.Spsc.Ring.Refine.{pushed-content}
use libni.Spsc.Threads.{Pushing, System, check_room, store_slot, advance_write, Reach, start, later}

module _ {A : Type 0} ⦃s : Slot A⦄ where
  -- What is left once producer 0 has pushed `x` and producer 1 `y`, both successfully, on a ring
  -- that held `q`: the slots from the read index on hold `q` and then `y`, and `x` is gone.
  pub record Lost (r : Ring A) (q : List A) (x y : A) : Type 0 where
    pub after : System A
    pub reached : Reach 2 r after
    pub returned : (after.producer 0 ≡ Pushing.idle) × (after.producer 1 ≡ Pushing.idle)
    pub given : after.given ≡ x ∷ y ∷ []
    pub slots :
        (j : ℕ)
        → j < r.size
        → slot_at after.ring (around r.size r.read_index j) ≡ get_or (q ++ (y ∷ [])) j s.empty

  -- On any ring with room, two producers can both be told that their element was pushed while the
  -- second one overwrites the first.
  pub two_producers_lose :
      {r : Ring A} {q : List A} (x y : A)
      → Holds r q
      → length q < r.size
      → x ≢ s.empty
      → y ≢ s.empty
      → Lost r q x y
  two_producers_lose {r} {q} x y h lt nx ny = record {
    after = _;
    reached =
        later
          (later
            (later
              (later
                (later (later start (check_room 0 x (omega arith) refl (write_free h lt)))
                  (check_room 1 y (omega arith) refl (write_free h lt)))
                (store_slot 0 x (omega arith) refl))
              (store_slot 1 y (omega arith) refl))
            (advance_write 0 x (omega arith) refl))
          (advance_write 1 y (omega arith) refl);
    returned = (refl, refl);
    given = refl;
    slots = λ j lj.
        ap (λ (b : List A). get_or b (around r.size r.read_index j) s.empty)
          (set-set r.buf r.write_index x y)
        ∙ pushed-content y h lt j lj;
  }
