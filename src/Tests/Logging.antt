-- ===== src/Tests/Logging.antt =====
-- include/ni/logging and src/logging: a service with one channel and one file.
use libni.Base.{◌≡◌, refl, arith, true, false, List, [], ◌∷◌, ◌++◌, some, none, update}
use libni.Spsc.Ring.{pointer_slot}
use libni.Logging.{debug, warning, error, drop_message, LogMessage}
use libni.Logging.Sink.{Sink, file_sink, level, destroy}
use libni.Logging.Sink.Laws.{file_is, content, accepted, write_all, destroy-write_all}
use libni.Logging.MessageBus.{MessageBus, collect_pending_channels}
use libni.Logging.MessageBus.Laws.{Knows, collect_pending_channels_lem}
use libni.Logging.Logger.{Logger, log}
use libni.Logging.Logger.Laws.{AllOpen, Wrote, Outcome, log_lem}
use libni.Logging.LogWorker.{World, run_stopping}
use libni.Logging.LogWorker.Laws.{Carries, NotIn, Ready, run_stopping_lem}
use libni.Logging.LogService.{LogService}
use libni.Logging.Capture
use libni.Logging.Capture.Laws.{Captured, capture_logs}
use libni.Tests.Spsc.{one, one-Holds}

abbrev low : LogMessage
low = record { logger = 80; severity = debug; writer = 104 ∷ [] }

abbrev high : LogMessage
high = record { logger = 80; severity = error; writer = 105 ∷ [] }

abbrev file : Sink
file = file_sink warning (some (record { buffer = []; file = 97 ∷ [] }))

destroy-write_all_example :
    (k : Sink) × (write_all (low ∷ high ∷ []) file ≡ some k)
    × (destroy k ≡ some (content file ++ accepted (level file) (low ∷ high ∷ [])))
destroy-write_all_example = destroy-write_all (low ∷ high ∷ []) file file_is

abbrev pub bus : MessageBus
bus = record {
  m_queue_size = 4;
  m_channels = 16 ∷ [];
  m_pending_channels = one;
  m_futex = 0;
  channel_at = λ _. none;
}

bus-Knows : Knows bus (16 ∷ []) (48 ∷ [])
bus-Knows = record { channels = refl; waiting = one-Holds }

collect_pending_channels_lem_example :
    (b : MessageBus) × (collect_pending_channels bus ≡ some b)
    × Knows b (16 ∷ 48 ∷ []) []
    × (b.channel_at ≡ bus.channel_at)
collect_pending_channels_lem_example = collect_pending_channels_lem bus-Knows

abbrev logger : Logger
logger = record {
  m_level = debug;
  m_output = true;
  m_overflow_strategy = drop_message;
  m_sinks = file ∷ [];
}

log_lem_example : Outcome 64 logger one (48 ∷ []) bus (log 64 logger one bus)
log_lem_example = log_lem 64 logger bus one-Holds (omega arith)

abbrev world : World
world = record {
  channel_at = update (λ _. none) 16 (some one);
  message_at = update (λ _. none) 48 (some high);
  logger_at = update (λ _. none) 80 (some logger);
}

world-Ready : Ready world 16 80 (48 ∷ []) (high ∷ []) logger
unfolding AllOpen Carries NotIn
world-Ready = record {
  ring = one;
  channel = refl;
  holds = one-Holds;
  carries = (refl, refl, tt, tt);
  logger = refl;
  sinks_open = (file_is, tt);
}

run_stopping_lem_example :
    (w : World) × (ks : List Sink) × (run_stopping 2 0 (16 ∷ []) world ≡ some w)
    × Wrote (file ∷ []) (high ∷ []) ks
    × Ready w 16 80 [] [] (record logger { m_sinks = ks })
run_stopping_lem_example = run_stopping_lem (48 ∷ []) (high ∷ []) 0 world-Ready

abbrev service : LogService
service = record { queue_size = 4; m_loggers = (97 ∷ [], logger) ∷ []; running = false }

abbrev stamp : Capture.Stamp
stamp = record { time = 49 ∷ []; place = 58 ∷ [] }

capture_logs_example :
    Captured 80 warning error stamp
      ((120 ∷ []) ∷ [])
      (Capture.destroy (Capture.write_all ((120 ∷ []) ∷ []) (Capture.make 80 warning error stamp)))
capture_logs_example = capture_logs 80 warning error stamp ((120 ∷ []) ∷ [])
