-- ===== src/Logging/LogService.antt =====
-- include/ni/logging/log_service.hh, src/logging/log_service.cc: class LogService. A name is the
-- characters of a std::string, and the unordered_map an association list with one entry for a name.
-- The worker is `Logging.LogWorker`: here only whether its thread is up.
pub mod Laws
pub mod Singleton
use mathlib.Core.Logic.{ite}
use libni.Base.{
  ℕ, Bool, true, false, List, [], ◌∷◌, ◌++◌, Option, some, none, ◌==◌, ◌&&◌, if◌then◌else◌,
}
use libni.Logging.Logger
use libni.Logging.Logger.{Logger}

-- `std::string` equality
unfoldable pub same_name : List ℕ → List ℕ → Bool
same_name [] [] = true
same_name [] (y ∷ ys) = false
same_name (x ∷ xs) [] = false
same_name (x ∷ xs) (y ∷ ys) = (x == y) && same_name xs ys

pub record LogService : Type 0 where
  pub queue_size : ℕ
  pub m_loggers : List (List ℕ × Logger)
  pub running : Bool

unfoldable pub make : ℕ → LogService
make queue_size = record { queue_size = queue_size; m_loggers = []; running = false }

unfoldable pub find : List ℕ → List (List ℕ × Logger) → Option Logger
find name [] = none
find name (e ∷ es) = let rest = find name es in if same_name name e.0 then some e.1 else rest

-- With a name that is taken, the map stays as it is and the logger is deleted.
unfoldable pub add_logger : List ℕ → Logger → LogService → Bool × LogService
add_logger name logger s = elim (find name s.m_loggers) [
  | none ↦ (true, record s { m_loggers = (name, Logger.connect logger) ∷ s.m_loggers })
  | some l ↦ (false, s)
]

pub data Found : Type 0 where
  found : Logger → Found
  logger_not_found : (name : List ℕ) → Found

unfoldable pub get : List ℕ → LogService → Found
get name s = elim (find name s.m_loggers) [ some l ↦ found l | none ↦ logger_not_found name ]

-- `start` and `stop`, up to the thread; `none` is a failed `assert(!m_thread)`.
unfoldable pub start : LogService → Option LogService
start s = if s.running then none else some (record s { running = true })

unfoldable pub stop : LogService → LogService
stop s = record s { running = false }
