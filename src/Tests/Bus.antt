-- ===== src/Tests/Bus.antt =====
-- The worker's sleep and wake-up in MessageBus::wait, and its thread.
use libni.Base.{
  if◌then◌else◌, ltb, ℕ, ◌+◌, ◌-◌, ◌<◌, ◌≡◌, ◌≢◌, refl, arith, [], ◌∷◌, ◌++◌, replicate, some, none,
  update,
}
use libni.Spsc.Ring.{pointer_slot}
use libni.Sync.Futex.{woken, failed, eintr, errno_after, Kernel}
use libni.Logging.MessageBus.Wait.{wait_loop, wait_loop_lem}
use libni.Logging.MessageBus.Threads.{
  found_nothing, asleep, idle, loading, State, publish, find_nothing, clear, sleep, Run, here,
  later, new_bus,
}
use libni.Logging.MessageBus.Threads.Wake.{sleeper_is_told, lost_wake_up}
use libni.Logging.LogWorker.{World, turn, turns, sleeps, stops}
use libni.Logging.LogWorker.Thread
use libni.Logging.LogWorker.Thread.{LogWorker, Quiet, restart_stops}
use libni.Tests.Spsc.{four, four-Holds}
use libni.Tests.Logging.{bus}

wait_loop_lem_example :
    (wait_loop (failed 4 ∷ woken ∷ []) 11 ≡ some (errno_after (failed 4) 11, woken ∷ []))
    × (wait_loop (replicate 3 woken) eintr ≡ none)
    × (wait_loop (replicate 3 woken ++ (failed 11 ∷ woken ∷ [])) eintr ≡ some (11, woken ∷ []))
wait_loop_lem_example = wait_loop_lem (failed 4) (woken ∷ []) 11 3 11 (λ e. omega arith)

-- A kernel that puts a thread to sleep whenever the word is the one that it expects.
abbrev kernel : Kernel
kernel = record {
  Sleeps = λ word expected. word ≡ expected;
  sleeps_only = λ word expected e. e;
  still_asleep = λ count sleepers. sleepers - count;
  wakes = λ sleepers. omega arith;
}

abbrev sleeping : State
sleeping = record (new_bus 0) { worker = asleep }

abbrev published : State
published = record sleeping { messages = 1; since = 1; thread = update (λ _. idle) 0 loading }

published-Run : Run kernel 1 (new_bus 0) published
published-Run =
    later (later (later (later here (find_nothing refl refl)) (clear refl)) (sleep refl refl))
      (publish 0 (omega arith) refl)

sleeper_is_told_example : (i : ℕ) × (i < 1) × (published.thread i ≢ idle)
sleeper_is_told_example = sleeper_is_told kernel published-Run refl (omega arith)

abbrev deciding : State
deciding = record (new_bus 0) { worker = found_nothing }

lost_wake_up_example :
    (u : State) × Run kernel 1 deciding u
    × (u.worker ≡ asleep)
    × (u.word ≡ 0)
    × (u.messages ≡ deciding.messages + 1)
    × ((j : ℕ) → u.thread j ≡ deciding.thread j)
lost_wake_up_example = lost_wake_up kernel 0 (omega arith) refl refl refl

-- A world with one channel, which is empty.
abbrev waiting : World
waiting = record {
  channel_at = update (λ _. none) 16 (some four);
  message_at = λ _. none;
  logger_at = λ _. none;
}

waiting-Quiet : Quiet (16 ∷ []) waiting
unfolding Quiet
waiting-Quiet = (four, refl, four-Holds, tt)

restart_stops_example :
    (u : LogWorker) × (v : LogWorker) × (Thread.start 5 (Thread.make bus) ≡ some u)
    × (turn u.m_stopping 7 (16 ∷ []) waiting
        ≡ some (if ltb 7 2048 then turns 8 waiting else sleeps waiting))
    × (Thread.start 6 (Thread.stop u).1 ≡ some v)
    × (v.m_thread ≡ 6)
    × (turn v.m_stopping 7 (16 ∷ []) waiting ≡ some (stops waiting))
restart_stops_example = restart_stops bus 5 6 7 (16 ∷ []) waiting (omega arith) waiting-Quiet
