-- ===== src/Spsc/Queue.antt =====
-- The specification of the ring: a first-in first-out queue of at most `cap` elements.
use libni.Base.{
  ◌≡◌, refl, arith, Bool-cases, inl, inr, ℕ, Bool, true, false, List, [], ◌∷◌, ◌++◌, ltb,
  if◌then◌else◌, length,
}

module _ {A : Type 0} where
  unfoldable pub push : ℕ → A → List A → Bool × List A
  push cap x q = if ltb (length q) cap then (true, q ++ (x ∷ [])) else (false, q)

  -- `none` stands for an empty queue.
  unfoldable pub pop : A → List A → A × List A
  pop none [] = (none, [])
  pop none (x ∷ q) = (x, q)

-- What `push` answers, and what it leaves.
pub answered : {A : Type 0} (cap : ℕ) (p : A) (q : List A) → (push cap p q).0 ≡ ltb (length q) cap
unfolding push
answered cap p q = ground arith

pub queued :
    {A : Type 0} (cap : ℕ) (p : A) (q : List A)
    → (push cap p q).1 ≡ (if ltb (length q) cap then q ++ (p ∷ []) else q)
unfolding push
queued cap p q = elim (Bool-cases (ltb (length q) cap)) [ inl e ↦ rw e refl | inr e ↦ rw e refl ]
