-- ===== src/Scope/Exceptions.antt =====
-- src/exception.cc: uncaught_exceptions. The C++ ABI's per-thread record of exceptions is a
-- parameter.
use libni.Base.{ℕ, ◌≡◌, Bool, true, if◌then◌else◌, arith}

-- What __cxxabiv1 offers: `get_globals` sets the record up at need, `get_globals_fast` only reads
-- it, and may be used once the thread has called the other.
pub record Abi (Thread : Type 0) : Type 0 where
  pub count : Thread → ℕ  -- the field `uncaughtExceptions`
  pub get_globals : Thread → ℕ × Thread
  pub get_globals_fast : Thread → ℕ
  pub ready : Thread → Bool
  pub reads : (t : Thread) → (get_globals t).0 ≡ count t
  pub keeps : (t : Thread) → count (get_globals t).1 ≡ count t
  pub readies : (t : Thread) → ready (get_globals t).1 ≡ true
  pub reads_fast : (t : Thread) → ready t ≡ true → get_globals_fast t ≡ count t

-- A thread and its flag GET_EH_GLOBALS_CALLED.
pub record Local (Thread : Type 0) : Type 0 where
  pub called : Bool
  pub thread : Thread

module _ {Thread : Type 0} (abi : Abi Thread) where
  pub uncaught_exceptions : Local Thread → ℕ × Local Thread
  uncaught_exceptions l =
      if l.called
      then (abi.get_globals_fast l.thread, l)
      else let (n, t) = abi.get_globals l.thread in (n, record { called = true; thread = t })

  -- The flag is set only once the ABI's record is ready.
  abbrev pub IsSound : Local Thread → Type 0
  IsSound l = l.called ≡ true → abi.ready l.thread ≡ true

  -- Whichever way it reads them, the function returns the thread's number of uncaught exceptions,
  -- leaves that number as it is, and sets the flag, with the ABI's record ready.
  pub uncaught_exceptions-count :
      (l : Local Thread)
      → IsSound l
      → ((uncaught_exceptions l).0 ≡ abi.count l.thread)
        × (abi.count (uncaught_exceptions l).1.thread ≡ abi.count l.thread)
        × ((uncaught_exceptions l).1.called ≡ true)
        × (abi.ready (uncaught_exceptions l).1.thread ≡ true)
  unfolding uncaught_exceptions
  uncaught_exceptions-count l sound =
      ground (
        arith,
        abi.reads l.thread,
        abi.keeps l.thread,
        abi.readies l.thread,
        abi.reads_fast l.thread,
      )
