-- ===== src/Scope/Guard.antt =====
-- include/ni/scope_guard.hh: class ScopeGuard. A guard's function is a value of `Fn`, and `call` is
-- what running it does to the program's state. What uncaught_exceptions() returns is an argument of
-- the operations that call it.
pub mod Laws
use libni.Base.{ℕ, Bool, true, false, ltb, leb, if◌then◌else◌}

pub data ScopeExit : Type 0 where
  all no_exception uncaught_exception : ScopeExit

pub record ScopeGuard (Fn : Type 0) : Type 0 where
  pub exit_condition : ScopeExit
  pub fn : Fn
  pub active : Bool
  pub uncaught_exceptions : ℕ

module _ {Fn : Type 0} where
  -- Both constructors, `make_scope_guard` and `operator<<`.
  unfoldable pub make : ScopeExit → Fn → (now : ℕ) → ScopeGuard Fn
  make all f now = record { exit_condition = all; fn = f; active = true; uncaught_exceptions = 0 }
  make c f now = record { exit_condition = c; fn = f; active = true; uncaught_exceptions = now }

  unfoldable pub deactivate : ScopeGuard Fn → ScopeGuard Fn
  deactivate g = record g { active = false }

  -- The move constructor: the new guard, and what is left of the other.
  unfoldable pub move : ScopeGuard Fn → ScopeGuard Fn × ScopeGuard Fn
  unfolding deactivate
  move other = (
    record {
      exit_condition = other.exit_condition;
      fn = other.fn;
      active = other.active;
      uncaught_exceptions = other.uncaught_exceptions;
    },
    deactivate other,
  )

  module _ {S : Type 0} (call : Fn → S → S) where
    -- The destructor past `if (m_active)`, by the exit condition.
    leave : ScopeExit → ScopeGuard Fn → (now : ℕ) → S → S
    leave all g now st = call g.fn st
    leave no_exception g now st = if ltb g.uncaught_exceptions now then st else call g.fn st
    leave uncaught_exception g now st = if leb now g.uncaught_exceptions then st else call g.fn st

    unfoldable pub destroy : ScopeGuard Fn → (now : ℕ) → S → S
    unfolding leave
    destroy g now st = if g.active then leave g.exit_condition g now st else st
