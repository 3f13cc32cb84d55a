-- ===== src/Logging/Sink.antt =====
-- include/ni/logging/sink.hh and src/logging/sink.cc: class Sink with StdStreamSink and FileSink.
-- A stream is a buffer and a file: fwrite adds to the first, fflush moves it to the second. The
-- stream functions are taken not to fail, and a FileSink to own its file alone.
pub mod Laws
use libni.Base.{Bool, true, false, List, [], ◌++◌, Option, some, none, ◌>>=◌, if◌then◌else◌, ℕ}
use libni.Logging.{LogSeverity, at_least, LogMessage}

pub record Stream : Type 0 where
  pub buffer : List ℕ
  pub file : List ℕ

-- `file_sink _ none` is a FileSink that is not open yet.
pub data Sink : Type 0 where
  std_stream_sink : (m_level : LogSeverity) → (m_stream : Stream) → (m_unlocked : Bool) → Sink
  file_sink : (m_level : LogSeverity) → (m_stream : Option Stream) → Sink

unfoldable pub level : Sink → LogSeverity
level (std_stream_sink v s u) = v
level (file_sink v s) = v

unfoldable pub should_accept : Sink → LogMessage → Bool
unfolding level at_least
should_accept k msg = at_least msg.severity (level k)

unfoldable pub fwrite : List ℕ → Stream → Stream
fwrite text s = record s { buffer = s.buffer ++ text }

unfoldable pub fflush : Stream → Stream
fflush s = record { buffer = []; file = s.file ++ s.buffer }

-- `write`; `none` is a failed `assert(m_stream)`.
unfoldable pub write : LogMessage → Sink → Option Sink
unfolding should_accept fwrite
write msg (std_stream_sink v s u) = some (
    std_stream_sink v (if should_accept (std_stream_sink v s u) msg then fwrite msg.writer s else s)
      u)
write msg (file_sink v none) = none
write msg (file_sink v (some s)) = some (
    file_sink v
      (some (if should_accept (file_sink v (some s)) msg then fwrite msg.writer s else s)))

-- On a FileSink that is not open, `fflush_unlocked(nullptr)` flushes the streams of the process: a
-- Logger flushes all of its own anyway.
unfoldable pub flush : Sink → Sink
unfolding fflush
flush (std_stream_sink v s u) = std_stream_sink v (fflush s) u
flush (file_sink v none) = file_sink v none
flush (file_sink v (some s)) = file_sink v (some (fflush s))

-- How FileSink::open ends: `fdopen` failing ends the process.
pub data Opened : Type 0 where
  advice_failed : Opened
  exited : Opened
  opened : Sink → Opened

-- `FileSink::open(fd)`, where posix_fadvise returns -1 or not and fdopen a stream on `file`, or null
unfoldable pub open_fd : (advised : Bool) → (fdopen : Option (List ℕ)) → Sink → Opened
unfolding level
open_fd false s k = advice_failed
open_fd true none k = exited
open_fd true (some file) k =
    opened (file_sink (level k) (some (record { buffer = []; file = file })))

-- `FileSink::open(filename)`, where open(2) gives a descriptor or -1; with the descriptor that it
-- returns, `none` for -1
unfoldable pub open_file :
    (opened_fd : Option ℕ) (advised : Bool) → (fdopen : Option (List ℕ)) → Sink → Opened × Option ℕ
unfolding open_fd
open_file none advised fdopen k = (exited, none)
open_file (some fd) true none k = (open_fd true none k, none)
open_file (some fd) true (some file) k = (open_fd true (some file) k, some fd)
open_file (some fd) false fdopen k = (open_fd false fdopen k, none)

-- The destructors; what is left of a sink is the file it wrote, if it had one.
unfoldable pub destroy : Sink → Option (List ℕ)
unfolding fflush
destroy (std_stream_sink v s u) = some (fflush s).file
destroy (file_sink v none) = none
destroy (file_sink v (some s)) = some (fflush s).file
