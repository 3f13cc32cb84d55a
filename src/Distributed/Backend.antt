-- ===== src/Distributed/Backend.antt =====
-- What include/ni/cds/distributed/dynamic.hh asks of its template parameter, a partial queue such as
-- MSQueue, one call at a time. `contents` is what a backend holds; the laws say what the methods
-- promise of it.
use libni.Base.{ℕ, ◌≡◌, ◌↔◌, Bool, true, List, [], ◌∷◌, ◌++◌, Option, none, some, if◌then◌else◌}

abbrev pub front {ℓ} : {A : Type ℓ} → Option A → List A
front none = []
front (some x) = x ∷ []

pub record Backend (B A : Type 0) : Type 0 where
  pub new : B
  pub empty : B → Bool
  pub put : A → B → Bool × B
  pub get : B → Option A × B
  -- `pop` also stores the state of the queue.
  pub pop : B → Option A × ℕ × B
  pub tail_state : B → ℕ
  pub contents : B → List A
  pub new_lem : contents new ≡ []
  pub empty_iff : (b : B) → (empty b ≡ true) ↔ (contents b ≡ [])
  pub put_lem :
      (x : A) (b : B)
      → contents (put x b).1 ≡ (if (put x b).0 then contents b ++ (x ∷ []) else contents b)
  pub get_lem : (b : B) → contents b ≡ front (get b).0 ++ contents (get b).1
  pub pop_lem : (b : B) → contents b ≡ front (pop b).0 ++ contents (pop b).2
  -- A `pop` that finds nothing found nothing to take, and reports the state that `tail_state` gives.
  pub pop_none : (b : B) → (pop b).0 ≡ none → (contents b ≡ []) × (tail_state (pop b).2 ≡ (pop b).1)
