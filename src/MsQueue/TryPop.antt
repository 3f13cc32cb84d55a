-- ===== src/MsQueue/TryPop.antt =====
-- MSQueue::try_pop: one attempt, if the state is the one that is given.
use libni.Base.{ℕ, ◌≡◌, ◌⊎◌, List, [], ◌∷◌, some, ◌==◌, if◌then◌else◌}
use libni.Chain.{Chain, rest_of}
use libni.TaggedPtr.{tag}
use libni.TaggedPtr.Atomic.{single_word}
use libni.MsQueue.{MsQueue, PopResult, success, empty_queue, failure, try_pop}
use libni.MsQueue.Inv.{pointer, address, Holds, Settled, Lagging}

module _ {A : Type 0} where
  -- What an attempt with state `s` answers on a queue that holds `p`.
  unfoldable pub answer : ℕ → MsQueue A → List (ℕ × A) → PopResult A
  answer s q [] =
      if tag (pointer q.m_head) == s then empty_queue (tag (pointer q.m_tail)) else failure
  answer s q (e ∷ p) =
      if tag (pointer q.m_head) == s
      then if address q.m_head == address q.m_tail then failure else success e.1
      else failure

  unfoldable pub remaining : PopResult A → List (ℕ × A) → List (ℕ × A)
  remaining (success x) p = rest_of p
  remaining (empty_queue s) p = p
  remaining failure p = p

  abbrev Answers : ℕ → MsQueue A → List (ℕ × A) → PopResult A → Type 0
  Answers s q p r =
      (q' : MsQueue A) × (try_pop s q ≡ some (r, q'))
      × Holds q' (remaining r p)
      × (Settled q' (remaining r p) ⊎ Lagging q' (remaining r p))
