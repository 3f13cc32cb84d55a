-- ===== src/Logging/Capture.antt =====
-- include/ni/logging/capture.hh: class Capture, which collects one message and logs it when it is
-- destroyed. `stamp` is what the constructor writes of the clock, the file and the line, and each
-- `<<` or `log` adds a text that the fmt library formatted. The constructor ends the process when
-- clock_gettime fails, which is not modelled.
pub mod Laws
use libni.Base.{
  ℕ, zero, suc, Bool, true, false, List, [], ◌∷◌, ◌++◌, Option, some, none, if◌then◌else◌,
}
use libni.Logging.{LogSeverity, at_least, short_name, LogMessage}

-- `m_logger` is the address of a logger, 0 for null.
pub record Capture : Type 0 where
  pub m_logger : ℕ
  pub m_message : Option LogMessage

-- What the constructor writes of the time, and of the place in the source.
pub record Stamp : Type 0 where
  pub time : List ℕ
  pub place : List ℕ

-- The level of a logger is read only when it is not null. `m_enabled` is whether there is a message.
unfoldable pub make : (logger : ℕ) → (level severity : LogSeverity) → Stamp → Capture
unfolding at_least short_name
make zero level severity stamp = record { m_logger = zero; m_message = none }
make (suc l) level severity stamp = record {
  m_logger = suc l;
  m_message =
      if at_least severity level
      then some (record {
        logger = suc l;
        severity = severity;
        writer =
            stamp.time
            ++ (32 ∷ short_name severity ∷ 32 ∷ 91 ∷ [])
            ++ stamp.place
            ++ (93 ∷ 32 ∷ []);
      })
      else none;
}

-- `operator<<` of every type, and `log`
unfoldable pub write : List ℕ → Capture → Capture
write text c = elim c.m_message [
  | none ↦ c
  | some m ↦ record c { m_message = some (record m { writer = m.writer ++ text }) }
]

-- The destructor: the message that is passed to `Logger::log`, if any.
unfoldable pub destroy : Capture → Option LogMessage
destroy c = elim c.m_message [
  | none ↦ none
  | some m ↦ some (record m { writer = m.writer ++ (10 ∷ []) })
]

unfoldable pub write_all : List (List ℕ) → Capture → Capture
unfolding write
write_all [] c = c
write_all (t ∷ ts) c = write_all ts (write t c)
