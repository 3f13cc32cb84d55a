-- ===== src/Logging.antt =====
-- include/ni/logging/common.hh, and the rest of include/ni/logging and src/logging below it.
pub mod Errors
pub mod Sink
pub mod MessageBus
pub mod Logger
pub mod LogWorker
pub mod LogService
pub mod Capture
use libni.Base.{ℕ, Bool, List, [], ◌∷◌, leb}

pub data LogSeverity : Type 0 where
  debug : LogSeverity
  info : LogSeverity
  notice : LogSeverity
  warning : LogSeverity
  error : LogSeverity
  critical : LogSeverity

pub data OverflowStrategy : Type 0 where
  retry : OverflowStrategy
  drop_message : OverflowStrategy

-- `static_cast<int>(severity)`
unfoldable pub index : LogSeverity → ℕ
index debug = 0
index info = 1
index notice = 2
index warning = 3
index error = 4
index critical = 5

-- `severity >= level` on the enumeration
unfoldable pub at_least : LogSeverity → LogSeverity → Bool
unfolding index
at_least severity level = leb (index level) (index severity)

-- `LOG_SEVERITY_SHORT_NAMES[severity]`, as a character code
unfoldable pub short_name : LogSeverity → ℕ
short_name debug = 68
short_name info = 73
short_name notice = 78
short_name warning = 87
short_name error = 69
short_name critical = 67

-- Loggers and messages are known by their addresses. `writer` is what the MemoryWriter holds.
pub record LogMessage : Type 0 where
  pub logger : ℕ
  pub severity : LogSeverity
  pub writer : List ℕ
