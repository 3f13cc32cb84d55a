-- ===== src/Logging/LogWorker.antt =====
-- src/logging/log_worker.cc: the loop of LogWorker::run, one turn at a time, over the channels that
-- MessageBus::channels returned for that turn. The thread and its sleep in `wait` are not modelled:
-- `sleeps` says that the turn ends there.
pub mod Laws
pub mod Thread
use libni.Base.{
  ℕ, zero, suc, ◌+◌, ◌≡◌, Bool, true, false, List, [], ◌∷◌, ◌++◌, Option, some, none, ◌>>=◌, update,
  ltb, ◌==◌, if◌then◌else◌,
}
use libni.Spsc.Ring
use libni.Spsc.Ring.{Ring, pointer_slot}
use libni.Logging.{LogMessage}
use libni.Logging.Logger
use libni.Logging.Logger.{Logger}

-- What stands at the addresses that the worker follows.
pub record World : Type 0 where
  pub channel_at : ℕ → Option (Ring ℕ)
  pub message_at : ℕ → Option LogMessage
  pub logger_at : ℕ → Option Logger

-- `msg->logger->save(msg.get()); msg = nullptr;` and the logger; `none` is a pointer to nothing, or
-- a failed `assert`.
unfoldable pub save_message : ℕ → World → Option (World × ℕ)
save_message p w = do
  msg ← w.message_at p
  logger ← w.logger_at msg.logger
  logger' ← Logger.save msg logger
  some (
    record w {
      message_at = update w.message_at p none;
      logger_at = update w.logger_at msg.logger (some logger');
    },
    msg.logger,
  )

-- One channel's turn, with the loggers seen before and after.
unfoldable pub serve : ℕ → World → List ℕ → Option (World × List ℕ)
serve c w loggers = do
  r ← w.channel_at c
  let (p, r') = Ring.pop r
  let w' = record w { channel_at = update w.channel_at c (some r') }
  if p == 0
      then some (w', loggers)
      else do (w'', l) ← save_message p w'; some (w'', loggers ++ (l ∷ []))

-- The loop over the channels.
unfoldable pub serve_all : List ℕ → World → List ℕ → Option (World × List ℕ)
serve_all [] w loggers = some (w, loggers)
serve_all (c ∷ cs) w loggers = do (w', loggers') ← serve c w loggers; serve_all cs w' loggers'

-- `flush_loggers`
unfoldable pub flush_loggers : List ℕ → World → Option World
flush_loggers [] w = some w
flush_loggers (l ∷ ls) w = do
  logger ← w.logger_at l
  flush_loggers ls (record w { logger_at = update w.logger_at l (some (Logger.flush logger)) })

pub data Turn : Type 0 where
  turns : (spins : ℕ) → World → Turn
  stops : World → Turn
  sleeps : World → Turn

-- `MAX_SPINS`
abbrev pub max_spins : ℕ
max_spins = 2048

-- What a turn does after its loop over the channels. There is a logger exactly when `has_messages`
-- is set, so the other two calls of `flush_loggers` flush nothing.
unfoldable pub settle : (stopping : Bool) (spins : ℕ) → List ℕ → World → Option Turn
settle stopping spins (l ∷ ls) w = do w' ← flush_loggers (l ∷ ls) w; some (turns 0 w')
settle stopping spins [] w =
    some
      (if stopping then stops w else if ltb spins max_spins then turns (spins + 1) w else sleeps w)

-- A turn of the `while (true)`, where `m_stopping` is read as `stopping`
unfoldable pub turn : (stopping : Bool) (spins : ℕ) → List ℕ → World → Option Turn
unfolding settle
turn stopping spins channels w = do
  (w', loggers) ← serve_all channels w []
  settle stopping spins loggers w'

-- The `while (true)` on fuel, once `m_stopping` is set and while nothing else is logged; `none`
-- means a fault, or that the fuel ran out. A turn that sleeps is never taken then.
unfoldable pub run_stopping : (fuel spins : ℕ) → List ℕ → World → Option World
run_stopping zero spins channels w = none
run_stopping (suc f) spins channels w = do
  t ← turn true spins channels w
  elim t [
    | turns spins' w' ↦ run_stopping f spins' channels w'
    | stops w' ↦ some w'
    | sleeps w' ↦ none
  ]
