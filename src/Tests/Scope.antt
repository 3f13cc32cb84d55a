-- ===== src/Tests/Scope.antt =====
-- include/ni/scope_guard.hh and src/exception.cc on a counter and on a small ABI.
use libni.Base.{ℕ, suc, ◌≡◌, refl, Bool, true, false}
use libni.Scope.Exceptions.{Abi, Local}
use libni.Scope.Guard.{uncaught_exception, make}
use libni.Scope.Guard.Laws.{destroy_all, moved, runs_once}

-- The state counts how often the function ran.
abbrev tick : Unit {0} → ℕ → ℕ
tick _ n = suc n

runs_once_example : destroy_all tick (moved tick 3 (make uncaught_exception tt 1)) 2 0 ≡ 1
runs_once_example = runs_once tick 3 uncaught_exception tt 1 2 0

-- A thread is its number of uncaught exceptions, and whether its record is set up.
abbrev counting_abi : Abi (ℕ × Bool)
counting_abi = record {
  count = λ t. t.0;
  get_globals = λ t. (t.0, (t.0, true));
  get_globals_fast = λ t. t.0;
  ready = λ t. t.1;
  reads = λ t. refl;
  keeps = λ t. refl;
  readies = λ t. refl;
  reads_fast = λ t _. refl;
}

abbrev fresh_thread : Local (ℕ × Bool)
fresh_thread = record { called = false; thread = (2, false) }
