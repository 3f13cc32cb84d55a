-- ===== src/Base/Family.antt =====
-- Families indexed by numbers (threads, addresses): update at one index.
use Prim.Native.Nat.{ℕ}
use mathlib.Core.Path.{◌≡◌, sym, subst}
use mathlib.Core.Logic.{◌≢◌}
use native.Mathlib.Omega.{arith}
use native.Mathlib.Decide.{ℕ_discrete}
use libni.Base.Tests.{◌==◌, if◌then◌else◌}

module _ {ℓ} {A : Type ℓ} where
  abbrev pub update : (ℕ → A) → ℕ → A → ℕ → A
  update f i a j = if i == j then a else f j

  pub update_self : (f : ℕ → A) (i : ℕ) (a : A) → update f i a i ≡ a
  update_self f i a = ground arith

  pub update_ne : (f : ℕ → A) (i : ℕ) (a : A) (j : ℕ) → i ≢ j → update f i a j ≡ f j
  update_ne f i a j h = ground arith

  -- What holds of the new value, and of all old ones but that at `i`, holds of all values.
  pub update_all {κ} :
      (P : ℕ → A → Type κ) (f : ℕ → A) (i : ℕ) (a : A)
      → P i a
      → ((j : ℕ) → i ≢ j → P j (f j))
      → (j : ℕ) → P j (update f i a j)
  update_all P f i a new old j = elim (ℕ_discrete i j) [
    | yes e ↦ subst (λ k. P k (update f i a k)) e (subst (P i) (sym (update_self f i a)) new)
    | no ne ↦ subst (P j) (sym (update_ne f i a j ne)) (old j ne)
  ]
