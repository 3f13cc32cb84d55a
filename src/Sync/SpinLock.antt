-- ===== src/Sync/SpinLock.antt =====
-- include/ni/sync/spinlock.hh: struct SpinLock, used by any number of threads. A thread takes one
-- access of the flag, or one backing off, at a time; the accesses are interleaved in any order.
pub mod Safety
use libni.Base.{ℕ, ◌<◌, ◌≡◌, Bool, true, false, update, ◌==◌, if◌then◌else◌}
use libni.Sync.Sleep
use libni.Sync.Sleep.{Pause}

-- Where a thread stands. `spinning` is the head of the inner loop of `lock`, with its `Pause`.
pub data Pc : Type 0 where
  outside : Pc
  spinning : Pause → Pc
  trying : Pause → Pc
  holding : Pc

pub record System : Type 0 where
  pub locked : Bool
  pub pc : ℕ → Pc

-- One access by thread `i`. The caller unlocks only a lock that it holds.
pub data Step (t : System) : System → Type 0 where
  -- `try_lock` succeeds, or fails.
  try_win :
      (i : ℕ)
      → t.pc i ≡ outside
      → t.locked ≡ false
      → Step t (record { locked = true; pc = update t.pc i holding })
  try_lose : (i : ℕ) → t.pc i ≡ outside → t.locked ≡ true → Step t t
  -- `lock`
  enter :
      (i : ℕ)
      → t.pc i ≡ outside
      → Step t (record t { pc = update t.pc i (spinning (Sleep.make 2048)) })
  load_locked :
      (i : ℕ) (p : Pause)
      → t.pc i ≡ spinning p
      → t.locked ≡ true
      → Step t (record t { pc = update t.pc i (spinning (Sleep.wait p).1) })
  load_free :
      (i : ℕ) (p : Pause)
      → t.pc i ≡ spinning p
      → t.locked ≡ false
      → Step t (record t { pc = update t.pc i (trying p) })
  exchange_win :
      (i : ℕ) (p : Pause)
      → t.pc i ≡ trying p
      → t.locked ≡ false
      → Step t (record { locked = true; pc = update t.pc i holding })
  -- The weak exchange may fail on a free lock too.
  exchange_lose :
      (i : ℕ) (p : Pause)
      → t.pc i ≡ trying p
      → Step t (record t { pc = update t.pc i (spinning p) })
  unlock :
      (i : ℕ) → t.pc i ≡ holding → Step t (record { locked = false; pc = update t.pc i outside })

abbrev pub init : System
init = record { locked = false; pc = λ _. outside }

pub data Reach : System → Type 0 where
  start : Reach init
  later : {t u : System} → Reach t → Step t u → Reach u
