-- ===== src/MsQueue/Threads/Progress.antt =====
-- Threads in MSQueue::push: no call waits for another, wherever the others stand.
use libni.Base.{
  ℕ, ◌+◌, ◌*◌, ◌<◌, ◌≤◌, ◌≡◌, refl, arith, false, List, ◌++◌, length, inl, inr, Bool-cases,
  ℕ_discrete, update_self,
}
use libni.Chain.Among.{Among, Ahead, Among-Ahead}
use libni.TaggedPtr.{TaggedPtr, value}
use libni.TaggedPtr.Atomic.{single_word, differ}
use libni.MsQueue.{MsQueue}
use libni.MsQueue.Inv.{address, pointer, Holds}
use libni.MsQueue.Threads.{
  Pushing, idle, loading, loaded, read_next, checked, linked, System, exchange_next, same_tail,
  other_tail, link, link_fails, help, Reach,
}
use libni.MsQueue.Threads.Inv.{Inv}
use libni.MsQueue.Threads.Steps.{at_thread}
use libni.MsQueue.Threads.Link.{Step-Inv, Reach-Inv}
use libni.MsQueue.Threads.Linked.{readable}
use libni.MsQueue.Threads.Solo.{
  Returns, at_once, after_step, within, from_linked, from_loading, from_loaded, further,
}

module _ {A : Type 0} {n i : ℕ} {p : List (ℕ × A)} {t : System A} (lt : i < n) (inv : Inv p t) where
  tail-Ahead :
      (k : ℕ) × (k ≤ length (p ++ t.pushed))
      × Ahead k (address t.queue.m_tail) (address t.queue.m_head) (p ++ t.pushed)
  tail-Ahead =
      Among-Ahead (address t.queue.m_tail) (address t.queue.m_head) (p ++ t.pushed) inv.tail

  loading-Returns :
      (node : ℕ) (x : A)
      → t.thread i ≡ loading node x
      → Returns n i (5 + 6 * length (p ++ t.pushed)) t
  loading-Returns node x e =
      let (k, le, ahead) = tail-Ahead in
      within (omega arith)
        (from_loading lt k node x inv e ahead (further lt k node x (pointer t.queue.m_tail)))

  loaded-Returns :
      (node : ℕ) (x : A) (old : TaggedPtr)
      → t.thread i ≡ loaded node x old
      → Returns n i (7 + 6 * length (p ++ t.pushed)) t
  loaded-Returns node x old e =
      let (k, le, ahead) = tail-Ahead in
      within (omega arith)
        (from_loaded lt k node x old inv e ahead (λ old'. further lt k node x old'))

module _ {A : Type 0} {n i : ℕ} {p : List (ℕ × A)} (lt : i < n) where
  checked-Returns :
      {t : System A} (node : ℕ) (x : A) (old next : TaggedPtr)
      → Inv p t
      → t.thread i ≡ checked node x old next
      → Returns n i (8 + 6 * length (p ++ t.pushed)) t
  checked-Returns {t} node x old next inv e = elim (ℕ_discrete (value next) 0) [
    | yes null ↦
        let (tail, here) =
          readable inv (checked node x old next) (at_thread i inv (checked node x old next) e) in
        elim (Bool-cases (exchange_next false node next tail).0) [
          | inl won ↦
              after_step (link false node x old next tail lt e null here won) (omega arith)
                (from_linked node x old lt (update_self t.thread i (linked node x old)))
          | inr lost ↦
              let st = link_fails false node x old next tail lt e null here lost in
              after_step st (omega arith) (
                loading-Returns lt (Step-Inv st inv) node x
                  (update_self t.thread i (loading node x)))
        ]
    | no ne ↦
        let st = help false node x old next lt e ne in
        after_step st (omega arith)
          (loaded-Returns lt (Step-Inv st inv) node x _ (update_self t.thread i _))
  ]

  all-Returns :
      {t : System A} (c : Pushing A)
      → Inv p t
      → t.thread i ≡ c
      → Returns n i (9 + 6 * length (p ++ t.pushed)) t
  all-Returns idle inv e = at_once e
  all-Returns (loading node x) inv e = within (omega arith) (loading-Returns lt inv node x e)
  all-Returns (loaded node x old) inv e = within (omega arith) (loaded-Returns lt inv node x old e)
  all-Returns {t} (read_next node x old next) inv e =
      elim (Bool-cases (differ t.queue.m_tail old)) [
        | inl other ↦
            let st = other_tail node x old next lt e other in
            after_step st (omega arith) (
              loading-Returns lt (Step-Inv st inv) node x (update_self t.thread i (loading node x)))
        | inr same ↦
            let st = same_tail node x old next lt e same in
            after_step st (omega arith) (
              checked-Returns node x old next (Step-Inv st inv)
                (update_self t.thread i (checked node x old next)))
      ]
  all-Returns (checked node x old next) inv e =
      within (omega arith) (checked-Returns node x old next inv e)
  all-Returns (linked node x old) inv e = within (omega arith) (from_linked node x old lt e)

  -- From a queue that holds p with m_tail at one of its nodes, in every state that n threads in
  -- push reach: each thread, wherever the others stand and whatever they have left undone, can
  -- return from its call alone, in at most nine accesses and six for each node behind the first.
  pub push-Returns :
      {q : MsQueue A} {t : System A}
      → Holds q p
      → Among (address q.m_tail) (address q.m_head) p
      → Reach n q t
      → Returns n i (9 + 6 * length (p ++ t.pushed)) t
  push-Returns {t} h m r = all-Returns (t.thread i) (Reach-Inv h m r) refl
