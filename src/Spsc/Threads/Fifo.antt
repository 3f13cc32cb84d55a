-- ===== src/Spsc/Threads/Fifo.antt =====
-- With one producer and one consumer the ring is a first-in first-out queue, however they
-- interleave.
use libni.Base.{◌<◌, ◌≤◌, ◌≡◌, ◌↔◌, refl, sym, ◌∙◌, arith, List, [], ◌∷◌, ◌++◌, length, dec_lt}
use libni.Spsc.Ring.{Slot, Ring, slot_at}
use libni.Spsc.Ring.Inv.{Holds, read_slot, write_free, write_taken}
use libni.Spsc.Threads.Inv.{NoneEmpty, settled, PushSound, PopSound, Reach-StateInv}
use libni.Spsc.Threads.{Pushing, found_room, stored, Popping, found, cleared, System, Reach}

module _ {A : Type 0} ⦃s : Slot A⦄ where
  -- What a call of `pop` has seen, or will see if it starts now, agrees with the queue `q`.
  abbrev pub PopAgrees : Ring A → List A → Popping A → Type 0
  PopAgrees r q Popping.idle = (slot_at r r.read_index ≡ s.empty) ↔ (q ≡ [])
  PopAgrees r q (found x) = (rest : List A) × (q ≡ x ∷ rest)
  PopAgrees r q (cleared x) = Unit

  -- The same for `push`.
  abbrev pub PushAgrees : Ring A → List A → Pushing A → Type 0
  PushAgrees r q Pushing.idle = (slot_at r r.write_index ≡ s.empty) ↔ (length q < r.size)
  PushAgrees r q (found_room x) = length q < r.size
  PushAgrees r q (stored x) = Unit

  module _ (r : Ring A) where
    pop_agrees :
        {q : List A} (p : Pushing A) (c : Popping A)
        → Holds (settled r p c) q
        → PopSound q c
        → PopAgrees r q c
    pop_agrees {q = []} p Popping.idle h sound = (λ _. refl, λ _. read_slot h)
    pop_agrees {q = x ∷ q} p Popping.idle h sound =
        (λ e. absurd (h.full 0 (omega arith) (sym (read_slot h) ∙ e)), λ e. cc)
    pop_agrees p (found x) h sound = sound
    pop_agrees p (cleared x) h sound = tt

    push_agrees :
        {q : List A} (p : Pushing A) (c : Popping A)
        → Holds (settled r p c) q
        → PushSound r.size q p
        → PushAgrees r q p
    push_agrees {q} Pushing.idle c h sound = (
      λ e. elim (dec_lt (length q) r.size) [
        | yes lt ↦ lt
        | no n ↦ absurd (write_taken h (omega (arith, h.room)) e)
      ],
      λ lt. write_free h lt,
    )
    push_agrees (found_room x) c h sound = sound
    push_agrees (stored x) c h sound = tt

  -- Started on an empty ring, with one producer and one consumer, in every state that they reach in
  -- any interleaving, if none of the elements stored so far is `Empty`: the elements stored are
  -- those taken out, in the same order, followed by a queue no longer than the ring. A `pop` that
  -- starts finds `Empty` exactly when that queue is empty, and one that has found an element holds
  -- the head of the queue; a `push` that starts finds room exactly when the queue is shorter than
  -- the ring, and one that has found room still has it.
  pub fifo_of_reach :
      {r : Ring A} {t : System A}
      → Holds r []
      → Reach 1 r t
      → NoneEmpty t.given
      → (q : List A) × (t.given ≡ t.taken ++ q)
        × (length q ≤ t.ring.size)
        × PopAgrees t.ring q t.consumer
        × PushAgrees t.ring q (t.producer 0)
  fifo_of_reach {t} h run given =
      let (q, inv) = Reach-StateInv h run given in
      (
        q,
        inv.fifo,
        inv.holds.room,
        pop_agrees t.ring (t.producer 0) t.consumer inv.holds inv.popping,
        push_agrees t.ring (t.producer 0) t.consumer inv.holds inv.pushing,
      )
