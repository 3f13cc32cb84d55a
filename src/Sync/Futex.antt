-- ===== src/Sync/Futex.antt =====
-- include/ni/futex.hh: struct Futex. What the kernel answers to a system call is an argument.
use libni.Base.{ℕ, ◌+◌, ◌≡◌, Bool, true, false, ◌==◌, if◌then◌else◌}

-- A `FUTEX_WAIT` that returns: 0, or -1 with an error number.
pub data Reply : Type 0 where
  woken : Reply
  failed : (errno : ℕ) → Reply

-- The two numbers of Linux that the code compares `errno` with.
abbrev pub eintr : ℕ
eintr = 4

abbrev pub ewouldblock : ℕ
ewouldblock = 11

-- `errno` after the call, which leaves it as it was when it returns 0
abbrev pub errno_after : Reply → ℕ → ℕ
errno_after woken errno = errno
errno_after (failed e) errno = e

abbrev pub is_zero : Reply → Bool
is_zero woken = true
is_zero (failed e) = false

-- `Futex::wait`, with `errno` before and after it
abbrev pub wait : Reply → (errno : ℕ) → Bool × ℕ
wait reply errno = (
  if is_zero reply then true else (errno_after reply errno == ewouldblock),
  errno_after reply errno,
)

-- What the code relies on in the kernel: a thread is put to sleep only if the word is the one that
-- it expects, and `FUTEX_WAKE` takes as many sleepers off the word as it is asked to, or all of
-- them.
pub record Kernel : Type 1 where
  pub Sleeps : (word expected : ℕ) → Type 0
  pub sleeps_only : (word expected : ℕ) → Sleeps word expected → word ≡ expected
  pub still_asleep : (count sleepers : ℕ) → ℕ
  pub wakes : (sleepers : ℕ) → still_asleep 1 (1 + sleepers) ≡ sleepers

-- `Futex::wake`, with the sleepers that it leaves
abbrev pub wake : Kernel → (count sleepers : ℕ) → ℕ
wake k count sleepers = k.still_asleep count sleepers
