-- ===== src/Scope/Guard/Laws.antt =====
-- When the function of a guard runs, and how often, however often the guard is moved.
use libni.Base.{
  ℕ, zero, suc, ◌≡◌, refl, ap, ◌∙◌, arith, Bool, true, List, [], ◌∷◌, ltb, leb, if◌then◌else◌,
}
use libni.Scope.Guard.{
  ScopeExit, all, no_exception, uncaught_exception, ScopeGuard, make, deactivate, move, leave,
  destroy,
}

-- The meaning of an exit condition, for a scope entered with `before` exceptions in flight and left
-- with `now`.
abbrev pub fires : ScopeExit → (before now : ℕ) → Bool
fires all before now = true
fires no_exception before now = leb now before
fires uncaught_exception before now = ltb before now

module _ {Fn S : Type 0} (call : Fn → S → S) where
  -- A guard that has not been moved or deactivated runs its function exactly when its exit condition
  -- is met; once deactivated it does nothing.
  pub destroy-make :
      (c : ScopeExit) (f : Fn) (before now : ℕ) (st : S)
      → (destroy call (make c f before) now st ≡ (if fires c before now then call f st else st))
        × (destroy call (deactivate (make c f before)) now st ≡ st)
  unfolding make destroy leave deactivate
  destroy-make all f before now st = (refl, refl)
  destroy-make no_exception f before now st = (ground arith, refl)
  destroy-make uncaught_exception f before now st = (ground arith, refl)

  -- The destructors of several guards, the first one first.
  pub destroy_all : List (ScopeGuard Fn) → ℕ → S → S
  destroy_all [] now st = st
  destroy_all (g ∷ gs) now st = destroy_all gs now (destroy call g now st)

  -- A guard moved `n` times: what is left of each guard on the way, and last the one it ends in.
  pub moved : ℕ → ScopeGuard Fn → List (ScopeGuard Fn)
  moved zero g = g ∷ []
  moved (suc n) g = let (new, old) = move g in old ∷ moved n new

  destroy-deactivate :
      (g : ScopeGuard Fn) (now : ℕ) (st : S) → destroy call (deactivate g) now st ≡ st
  unfolding destroy deactivate
  destroy-deactivate g now st = refl

  destroy_all-moved :
      (n : ℕ) (g : ScopeGuard Fn) (now : ℕ) (st : S)
      → destroy_all (moved n g) now st ≡ destroy call g now st
  unfolding destroy_all moved move
  destroy_all-moved zero g now st = refl
  destroy_all-moved (suc n) g now st =
      ap (destroy_all (moved n g) now) (destroy-deactivate g now st) ∙ destroy_all-moved n g now st

  -- However often a guard is moved, destroying it and everything it was moved from runs its function
  -- once if its exit condition is met, and otherwise not at all.
  pub runs_once :
      (n : ℕ) (c : ScopeExit) (f : Fn) (before now : ℕ) (st : S)
      → destroy_all (moved n (make c f before)) now st
        ≡ (if fires c before now then call f st else st)
  runs_once n c f before now st =
      destroy_all-moved n (make c f before) now st ∙ (destroy-make c f before now st).0
