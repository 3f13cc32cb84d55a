-- ===== src/Logging/LogWorker/Thread.antt =====
-- src/logging/log_worker.cc: LogWorker's thread, started and stopped by one other thread. What
-- pthread_create makes is an argument, and is not 0; pthread_join is where `run` has returned.
use libni.Base.{
  ◌+◌, ◌∷◌, ltb, ℕ, ◌≡◌, ◌≢◌, refl, ap, Bool, true, false, List, [], Option, some, none, ◌>>=◌,
  ◌==◌, ==_ne, if◌then◌else◌, if_false,
}
use libni.Chain.{update_same}
use libni.Spsc.Ring.{Ring, pointer_slot}
use libni.Spsc.Ring.Inv.{Holds, read_slot}
use libni.Spsc.Ring.Refine.{pop_none}
use libni.Logging.MessageBus
use libni.Logging.MessageBus.{MessageBus}
use libni.Logging.LogWorker.{World, serve, serve_all, turns, stops, sleeps, settle, turn}

-- `m_thread` is 0 while there is no thread.
pub record LogWorker : Type 0 where
  pub m_input : MessageBus
  pub m_thread : ℕ
  pub m_stopping : Bool

abbrev pub make : MessageBus → LogWorker
make bus = record { m_input = bus; m_thread = 0; m_stopping = false }

-- `start`; `none` is its failed `assert`.
unfoldable pub start : (created : ℕ) → LogWorker → Option LogWorker
start created w = if w.m_thread == 0 then some (record w { m_thread = created }) else none

-- `stop`, with whether it wakes the worker
unfoldable pub stop : LogWorker → Bool × LogWorker
stop w = if w.m_thread == 0 then (false, w) else (
  (MessageBus.notify w.m_input).0,
  record w { m_stopping = true; m_input = (MessageBus.notify w.m_input).1; m_thread = 0 },
)

-- Every channel is there, and no message is in it.
unfoldable pub Quiet : List ℕ → World → Type 0
Quiet [] w = Unit
Quiet (c ∷ cs) w = (r : Ring ℕ) × (w.channel_at c ≡ some r) × Holds r [] × Quiet cs w

serve_quiet :
    (c : ℕ) (w : World) (loggers : List ℕ) (r : Ring ℕ)
    → w.channel_at c ≡ some r
    → Holds r []
    → serve c w loggers ≡ some (w, loggers)
unfolding serve
serve_quiet c w loggers r here holds =
    rw (here, ◌>>=◌)
      (rw (pop_none r (read_slot holds)) (
        ap (λ (f : ℕ → Option (Ring ℕ)). some (record w { channel_at = f }, loggers))
          (update_same w.channel_at c (some r) here)))

serve_all-Quiet : (cs : List ℕ) (w : World) → Quiet cs w → serve_all cs w [] ≡ some (w, [])
unfolding serve_all Quiet
serve_all-Quiet [] w quiet = refl
serve_all-Quiet (c ∷ cs) w (r, here, holds, quiet) =
    rw (serve_quiet c w [] r here holds, ◌>>=◌) (serve_all-Quiet cs w quiet)

-- While no channel holds a message, and with a first thread that is not 0: the thread of a new
-- worker goes on after each turn of `run`: it turns again, with one spin more, or sleeps when it
-- has spun often enough. Once the worker was stopped it can be started again, but the new thread
-- returns after such a turn, whatever its spins: `m_stopping` is still set.
pub restart_stops :
    (bus : MessageBus) (first second spins : ℕ) (channels : List ℕ) (world : World)
    → first ≢ 0
    → Quiet channels world
    → (u : LogWorker) × (v : LogWorker) × (start first (make bus) ≡ some u)
      × (turn u.m_stopping spins channels world
          ≡ some (if ltb spins 2048 then turns (spins + 1) world else sleeps world))
      × (start second (stop u).1 ≡ some v)
      × (v.m_thread ≡ second)
      × (turn v.m_stopping spins channels world ≡ some (stops world))
unfolding start stop turn settle
restart_stops bus first second spins channels world running quiet =
    let u = record (make bus) { m_thread = first } in
    let stopped = record u {
      m_stopping = true;
      m_input = (MessageBus.notify bus).1;
      m_thread = 0;
    } in
    let served = serve_all-Quiet channels world quiet in
    (
      u,
      record stopped { m_thread = second },
      refl,
      rw (served, ◌>>=◌) refl,
      ap (start second)
          (ap (λ (r : Bool × LogWorker). r.1) (if_false (false, u) (==_ne first 0 running))),
      refl,
      rw (served, ◌>>=◌) refl,
    )
