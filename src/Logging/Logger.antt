-- ===== src/Logging/Logger.antt =====
-- include/ni/logging/logger.hh and src/logging/logger.cc: class Logger.
-- `log` takes the calling thread's channel, which the source keeps in a `thread_local static` that
-- all loggers of the thread share.
pub mod Laws
use libni.Base.{
  ℕ, Bool, true, false, List, [], ◌∷◌, ◌++◌, Option, some, none, ◌>>=◌, map, if◌then◌else◌,
}
use libni.Spsc.Ring
use libni.Spsc.Ring.{Ring, pointer_slot}
use libni.Logging.{LogSeverity, OverflowStrategy, retry, drop_message, LogMessage}
use libni.Logging.Sink
use libni.Logging.Sink.{Sink}
use libni.Logging.MessageBus.{MessageBus, notify}

-- `m_output` is whether `connect` was called; there is one bus.
pub record Logger : Type 0 where
  pub m_level : LogSeverity
  pub m_output : Bool
  pub m_overflow_strategy : OverflowStrategy
  pub m_sinks : List Sink

unfoldable pub make : LogSeverity → OverflowStrategy → Logger
make level strategy = record {
  m_level = level;
  m_output = false;
  m_overflow_strategy = strategy;
  m_sinks = [];
}

unfoldable pub connect : Logger → Logger
connect l = record l { m_output = true }

unfoldable pub add_sink : Sink → Logger → Logger
add_sink k l = record l { m_sinks = l.m_sinks ++ (k ∷ []) }

-- One turn of the loop of `log`: the message is in the channel, or was deleted, or the loop turns
-- again.
pub data Logged : Type 0 where
  sent : (channel : Ring ℕ) → (woken : Bool) → (bus : MessageBus) → Logged
  dropped : Logged
  turn_again : Logged

overflow : OverflowStrategy → Logged
overflow retry = turn_again
overflow drop_message = dropped

-- `p` is the address of the message.
unfoldable pub log : (p : ℕ) → Logger → (channel : Ring ℕ) → MessageBus → Logged
unfolding overflow
log p l channel bus =
    let (pushed, channel') = Ring.push p channel in
    let (woken, bus') = notify bus in
    if pushed then sent channel' woken bus' else overflow l.m_overflow_strategy

-- The loop over the sinks; `none` is a failed `assert` of one of them.
write_each : LogMessage → List Sink → Option (List Sink)
write_each msg [] = some []
write_each msg (k ∷ ks) = do k' ← Sink.write msg k; ks' ← write_each msg ks; some (k' ∷ ks')

unfoldable pub save : LogMessage → Logger → Option Logger
unfolding write_each
save msg l = do sinks ← write_each msg l.m_sinks; some (record l { m_sinks = sinks })

unfoldable pub flush : Logger → Logger
flush l = record l { m_sinks = map Sink.flush l.m_sinks }
