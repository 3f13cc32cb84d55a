-- ===== src/MsQueue/Poppers/Once.antt =====
-- What threads in MSQueue::pop do together: every element is taken by one call.
use mathlib.Core.Option.{some-injective}
use libni.Base.{
  ℕ, ◌+◌, ◌<◌, ◌≡◌, refl, sym, ap, ◌∙◌, arith, List, [], ◌∷◌, ◌++◌, none, update, weigh,
  weigh-append, sum_to, sum_to-update, sum_to_zero,
}
use libni.TaggedPtr.{value}
use libni.TaggedPtr.Atomic.{single_word, load}
use libni.MsQueue.{Node, MsQueue, after}
use libni.MsQueue.Inv.{pointer, Holds}
use libni.MsQueue.Poppers.{
  Popping, idle, starting, head_loaded, tail_loaded, next_loaded, head_checked, value_read, took,
  System, Step, call, load_head, load_tail, load_next, same_head, other_head, find_empty, help,
  read_value, take, take_fails, finish, start_with, Run, start, later,
}
use libni.MsQueue.Poppers.Inv.{Inv, elements}
use libni.MsQueue.Poppers.Steps.{
  at_thread, moved-Inv, head_apart, First-read, tail-Inv, finish-Inv, take-Inv,
}

module _ {A : Type 0} where
  Step-Inv : {n i : ℕ} {p : List (ℕ × A)} {t u : System A} → Step n i t u → Inv p t → Inv p u
  Step-Inv {i} (call lt e) inv = moved-Inv i inv starting tt
  Step-Inv {i} {t} (load_head lt e) inv =
      moved-Inv i inv (head_loaded (load t.queue.m_head)) (head_apart i inv)
  Step-Inv {i} {t} (load_tail old lt e) inv =
      moved-Inv i inv (tail_loaded old (load t.queue.m_tail)) (at_thread i inv (head_loaded old) e)
  Step-Inv {i} {t} (load_next old old_tail h lt e here) inv =
      moved-Inv i inv (next_loaded old old_tail (load h.next)) (
        at_thread i inv (tail_loaded old old_tail) e,
        λ same d at.
            ap (λ (m : Node A). pointer m.next)
              (some-injective _ _ (sym at ∙ ap t.queue.heap (ap value same) ∙ here)),
      )
  Step-Inv {i} (same_head old old_tail next lt e same) inv =
      moved-Inv i inv (head_checked old old_tail next)
        (at_thread i inv (next_loaded old old_tail next) e)
  Step-Inv {i} (other_head old old_tail next lt e other) inv = moved-Inv i inv starting tt
  Step-Inv {i} (find_empty old old_tail next lt e same null) inv = moved-Inv i inv idle tt
  Step-Inv {i} (help fail old old_tail next lt e same ne) inv = tail-Inv i inv _
  Step-Inv {i} (read_value old old_tail next node lt e other there) inv =
      let (apart, reads) = at_thread i inv (head_checked old old_tail next) e in
      moved-Inv i inv (value_read old next node.value)
        (apart, First-read i inv old next node reads there)
  Step-Inv {i} (take fail old next x lt e won) inv = take-Inv i inv fail old next x e won
  Step-Inv {i} (take_fails fail old next x lt e lost) inv = moved-Inv i inv starting tt
  Step-Inv {i} {t} (finish old x lt e) inv = finish-Inv i inv old x (t.returned ++ (x ∷ [])) e

  Run-Inv :
      {n : ℕ} {q : MsQueue A} {p : List (ℕ × A)} {t : System A}
      → Holds q p
      → q.heap 0 ≡ none
      → Run n (start_with q) t
      → Inv p t
  Run-Inv {p} h z start = record { rest = p; holds = h; split = refl; null = z; sound = λ i. tt }
  Run-Inv h z (later i r st) = Step-Inv st (Run-Inv h z r)

  -- The weight of an element that is taken by a call that has not returned.
  abbrev pub carried : (A → ℕ) → Popping A → ℕ
  carried w (took old x) = w x
  carried w idle = 0
  carried w starting = 0
  carried w (head_loaded old) = 0
  carried w (tail_loaded old old_tail) = 0
  carried w (next_loaded old old_tail next) = 0
  carried w (head_checked old old_tail next) = 0
  carried w (value_read old next x) = 0

  -- What was taken, against what was returned and what is carried.
  abbrev Balanced : ℕ → (A → ℕ) → System A → Type 0
  Balanced n w t = weigh w t.taken ≡ weigh w t.returned + sum_to n (λ i. carried w (t.thread i))

  quiet-Balanced :
      (n i : ℕ) (w : A → ℕ) (t : System A) (c d : Popping A)
      → i < n
      → t.thread i ≡ d
      → carried w d ≡ 0
      → carried w c ≡ 0
      → Balanced n w t
      → weigh w t.taken ≡ weigh w t.returned + sum_to n (λ j. carried w (update t.thread i c j))
  quiet-Balanced n i w t c d lt e before after b =
      omega (arith, sum_to-update n i (carried w) t.thread c lt, ap (carried w) e)

  Step-Balanced :
      {n i : ℕ} (w : A → ℕ) {t u : System A} → Step n i t u → Balanced n w t → Balanced n w u
  unfolding weigh
  Step-Balanced {n} {i} w {t} (call lt e) b = quiet-Balanced n i w t _ _ lt e refl refl b
  Step-Balanced {n} {i} w {t} (load_head lt e) b = quiet-Balanced n i w t _ _ lt e refl refl b
  Step-Balanced {n} {i} w {t} (load_tail old lt e) b = quiet-Balanced n i w t _ _ lt e refl refl b
  Step-Balanced {n} {i} w {t} (load_next old old_tail h lt e at) b =
      quiet-Balanced n i w t _ _ lt e refl refl b
  Step-Balanced {n} {i} w {t} (same_head old old_tail next lt e same) b =
      quiet-Balanced n i w t _ _ lt e refl refl b
  Step-Balanced {n} {i} w {t} (other_head old old_tail next lt e other) b =
      quiet-Balanced n i w t _ _ lt e refl refl b
  Step-Balanced {n} {i} w {t} (find_empty old old_tail next lt e same null) b =
      quiet-Balanced n i w t _ _ lt e refl refl b
  Step-Balanced {n} {i} w {t} (help fail old old_tail next lt e same ne) b =
      quiet-Balanced n i w t _ _ lt e refl refl b
  Step-Balanced {n} {i} w {t} (read_value old old_tail next node lt e other at) b =
      quiet-Balanced n i w t _ _ lt e refl refl b
  Step-Balanced {n} {i} w {t} (take fail old next x lt e won) b = omega (
    arith,
    weigh-append w t.taken (x ∷ []),
    sum_to-update n i (carried w) t.thread (took old x) lt,
    ap (carried w) e,
  )
  Step-Balanced {n} {i} w {t} (take_fails fail old next x lt e lost) b =
      quiet-Balanced n i w t _ _ lt e refl refl b
  Step-Balanced {n} {i} w {t} (finish old x lt e) b = omega (
    arith,
    weigh-append w t.returned (x ∷ []),
    sum_to-update n i (carried w) t.thread idle lt,
    ap (carried w) e,
  )

  Run-Balanced :
      {n : ℕ} {q : MsQueue A} (w : A → ℕ) {t : System A} → Run n (start_with q) t → Balanced n w t
  unfolding weigh
  Run-Balanced {n} w start = omega (arith, sum_to_zero n (λ i. 0) (λ j below. refl))
  Run-Balanced w (later i r st) = Step-Balanced w st (Run-Balanced w r)

  -- From a queue that holds p, where no node stands at address 0, in every state that n threads in
  -- pop reach, in any interleaving and whatever exchanges fail spuriously: the queue holds some
  -- rest, and the elements of p are those taken, in the order in which they were, followed by those
  -- of the rest; and whatever the weights of the elements, those taken weigh as much as those that
  -- calls have returned and those of the calls that have taken theirs and not returned, so that no
  -- element is returned twice.
  pub pops_take_once :
      {n : ℕ} {q : MsQueue A} {p : List (ℕ × A)} {t : System A}
      → Holds q p
      → q.heap 0 ≡ none
      → Run n (start_with q) t
      → (rest : List (ℕ × A)) × Holds t.queue rest
        × (elements p ≡ t.taken ++ elements rest)
        × ((w : A → ℕ)
            → weigh w t.taken ≡ weigh w t.returned + sum_to n (λ i. carried w (t.thread i)))
  pops_take_once h z r =
      let inv = Run-Inv h z r in (inv.rest, inv.holds, inv.split, λ w. Run-Balanced w r)
