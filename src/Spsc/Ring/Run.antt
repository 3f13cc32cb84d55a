-- ===== src/Spsc/Ring/Run.antt =====
-- Any sequence of calls on a ring, against the bounded queue.
use libni.Base.{ℕ, ◌≡◌, ◌≢◌, refl, ap, ap₂, ◌∙◌, arith, Bool, List, [], ◌∷◌}
use libni.Spsc.Ring.{Slot, Ring, push, pop, reset}
use libni.Spsc.Ring.Inv.{Holds}
use libni.Spsc.Ring.Refine.{push_refines, pop_refines}
use libni.Spsc.Ring.Reset.{reset-Holds, size-clear}
use libni.Spsc.Queue

-- A call by the program, and what it is told.
pub data Call {ℓ} (A : Type ℓ) : Type ℓ where
  put : A → Call A
  take : Call A
  forget : Call A

pub data Reply {ℓ} (A : Type ℓ) : Type ℓ where
  pushed_it : Bool → Reply A
  popped_it : A → Reply A
  forgotten : Reply A

module _ {A : Type 0} ⦃s : Slot A⦄ where
  pub run : Ring A → List (Call A) → List (Reply A)
  run r [] = []
  run r (put x ∷ cs) = pushed_it (push x r).0 ∷ run (push x r).1 cs
  run r (take ∷ cs) = popped_it (pop r).0 ∷ run (pop r).1 cs
  run r (forget ∷ cs) = forgotten ∷ run (reset r) cs

  pub run_queue : ℕ → List A → List (Call A) → List (Reply A)
  run_queue cap q [] = []
  run_queue cap q (put x ∷ cs) =
      pushed_it (Queue.push cap x q).0 ∷ run_queue cap (Queue.push cap x q).1 cs
  run_queue cap q (take ∷ cs) =
      popped_it (Queue.pop s.empty q).0 ∷ run_queue cap (Queue.pop s.empty q).1 cs
  run_queue cap q (forget ∷ cs) = forgotten ∷ run_queue cap [] cs

  -- No call pushes `Empty`.
  abbrev pub PushesElements : List (Call A) → Type 0
  PushesElements [] = Unit
  PushesElements (put x ∷ cs) = (x ≢ s.empty) × PushesElements cs
  PushesElements (take ∷ cs) = PushesElements cs
  PushesElements (forget ∷ cs) = PushesElements cs

  pub size-push : (x : A) (r : Ring A) → (push x r).1.size ≡ r.size
  unfolding push
  size-push x r = ground arith

  size-pop : (r : Ring A) → (pop r).1.size ≡ r.size
  unfolding pop
  size-pop r = ground arith

  size-reset : (r : Ring A) → (reset r).size ≡ r.size
  unfolding reset
  size-reset r = size-clear s.filler (record r { read_index = 0; write_index = 0 })

  -- A program that pushes no `Empty` cannot tell the ring from a bounded first-in first-out queue:
  -- every sequence of pushes, pops and resets gets the answers that the queue gives.
  pub run_refines :
      (cs : List (Call A)) (r : Ring A) (q : List A)
      → Holds r q
      → PushesElements cs
      → run r cs ≡ run_queue r.size q cs
  unfolding run run_queue
  run_refines [] r q h ok = refl
  run_refines (put x ∷ cs) r q h ok =
      let (answer, holds) = push_refines x h ok.0 in
      ap₂ ◌∷◌ (ap pushed_it answer) (
        run_refines cs (push x r).1 (Queue.push r.size x q).1 holds ok.1
        ∙ ap (λ (n : ℕ). run_queue n (Queue.push r.size x q).1 cs) (size-push x r))
  run_refines (take ∷ cs) r q h ok =
      let (answer, holds) = pop_refines h in
      ap₂ ◌∷◌ (ap popped_it answer) (
        run_refines cs (pop r).1 (Queue.pop s.empty q).1 holds ok
        ∙ ap (λ (n : ℕ). run_queue n (Queue.pop s.empty q).1 cs) (size-pop r))
  run_refines (forget ∷ cs) r q h ok =
      ap (λ (l : List (Reply A)). forgotten ∷ l)
        (run_refines cs (reset r) [] (reset-Holds h) ok
          ∙ ap (λ (n : ℕ). run_queue n [] cs) (size-reset r))
