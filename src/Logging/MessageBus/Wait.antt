-- ===== src/Logging/MessageBus/Wait.antt =====
-- MessageBus::wait of src/logging/message_bus.cc: its loop over what the kernel answers.
use libni.Base.{
  ℕ, zero, suc, ◌≡◌, ◌≢◌, refl, sym, ◌∙◌, ==_iff, arith, Bool, false, List, [], ◌∷◌, ◌++◌, Option,
  some, none, ◌==◌, ==_ne, if◌then◌else◌, if_true, if_false, replicate, Bool-cases, inl, inr,
}
use libni.Sync.Futex.{Reply, woken, failed, eintr, ewouldblock, errno_after, wait}

-- One turn of the loop: whether it turns again, and `errno`.
unfoldable pub turn : Reply → (errno : ℕ) → Bool × ℕ
turn reply errno =
    let (rv, errno') = wait reply errno in (if rv then errno' == eintr else false, errno')

-- The loop over the answers to its system calls: `errno` at its end and the answers that are left,
-- or none if it has not ended.
unfoldable pub wait_loop : List Reply → (errno : ℕ) → Option (ℕ × List Reply)
unfolding turn
wait_loop [] errno = none
wait_loop (r ∷ rs) errno =
    let (again, errno') = turn r errno in
    let rest = wait_loop rs errno' in if again then rest else some (errno', rs)

-- It turns again exactly when the kernel woke the thread and `errno` is EINTR from before.
abbrev pub turns_again : Reply → (errno : ℕ) → Bool
turns_again woken errno = errno == eintr
turns_again (failed e) errno = false

pub turn_again : (r : Reply) (errno : ℕ) → (turn r errno).0 ≡ turns_again r errno
unfolding turn
turn_again woken errno = refl
turn_again (failed e) errno = elim (Bool-cases (e == ewouldblock)) [
  | inl same ↦
      if_true false same ∙ ==_ne e eintr (λ f. different (sym f ∙ (==_iff e ewouldblock).0 same))
  | inr other ↦ if_false _ other
]
  where
    different : eintr ≢ ewouldblock
    different f = omega arith

wait_loop-ends :
    (r : Reply) (rs : List Reply) (errno : ℕ)
    → turns_again r errno ≡ false
    → wait_loop (r ∷ rs) errno ≡ some ((turn r errno).1, rs)
unfolding wait_loop turn
wait_loop-ends r rs errno e = if_false _ (turn_again r errno ∙ e)

-- If `errno` is not EINTR when it is entered, `wait` ends with the first answer, whatever that is,
-- a signal included. If `errno` is EINTR, it sleeps again each time that it is woken, for any
-- number `k` of times, and ends with the first error, whichever that is.
pub wait_loop_lem :
    (r : Reply) (rs : List Reply) (errno k e : ℕ)
    → errno ≢ eintr
    → (wait_loop (r ∷ rs) errno ≡ some (errno_after r errno, rs))
      × (wait_loop (replicate k woken) eintr ≡ none)
      × (wait_loop (replicate k woken ++ (failed e ∷ rs)) eintr ≡ some (e, rs))
unfolding wait_loop turn
wait_loop_lem r rs errno k e ne = (wait_loop-ends r rs errno (once r), sleeps k, ends k)
  where
    once : (r : Reply) → turns_again r errno ≡ false
    once woken = ==_ne errno eintr ne
    once (failed e) = refl

    sleeps : (k : ℕ) → wait_loop (replicate k woken) eintr ≡ none
    sleeps zero = refl
    sleeps (suc k) = sleeps k

    ends : (k : ℕ) → wait_loop (replicate k woken ++ (failed e ∷ rs)) eintr ≡ some (e, rs)
    ends zero = wait_loop-ends (failed e) rs eintr refl
    ends (suc k) = ends k
