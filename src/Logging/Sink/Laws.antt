-- ===== src/Logging/Sink/Laws.antt =====
-- What a sink has written once it is flushed.
use libni.Base.{
  ℕ, ◌≡◌, refl, sym, ap, ap₂, ◌∙◌, Bool, List, [], ◌∷◌, ◌++◌, append-nil, append_assoc, Option,
  some, none, ◌>>=◌, if◌then◌else◌, Bool-cases, inl, inr,
}
use libni.Logging.{LogSeverity, at_least, LogMessage}
use libni.Logging.Sink.{
  Stream, Sink, std_stream_sink, file_sink, level, should_accept, fwrite, fflush, write, destroy,
}

-- An independent account: the text of the messages at or above a severity, in order.
unfoldable pub accepted : LogSeverity → List LogMessage → List ℕ
accepted v [] = []
accepted v (m ∷ ms) = if at_least m.severity v then m.writer ++ accepted v ms else accepted v ms

pub write_all : List LogMessage → Sink → Option Sink
write_all [] k = some k
write_all (m ∷ ms) k = do k' ← write m k; write_all ms k'

pub data IsOpen : Sink → Type 0 where
  std_is : {v : LogSeverity} {s : Stream} {u : Bool} → IsOpen (std_stream_sink v s u)
  file_is : {v : LogSeverity} {s : Stream} → IsOpen (file_sink v (some s))

-- What a flush at this point would have put in the file.
unfoldable pub content : Sink → List ℕ
unfolding fflush
content (std_stream_sink v s u) = (fflush s).file
content (file_sink v none) = []
content (file_sink v (some s)) = (fflush s).file

pub write-one :
    (m : LogMessage) (k : Sink)
    → IsOpen k
    → (k' : Sink) × (write m k ≡ some k')
      × IsOpen k'
      × (level k' ≡ level k)
      × (content k' ≡ content k ++ (if at_least m.severity (level k) then m.writer else []))
unfolding write content should_accept level fwrite fflush
write-one m (std_stream_sink v s u) std_is = (
  _,
  refl,
  std_is,
  refl,
  elim (Bool-cases (at_least m.severity v)) [
    | inl e ↦ rw e (sym (append_assoc s.file s.buffer m.writer))
    | inr e ↦ rw e (sym (append-nil (s.file ++ s.buffer)))
  ],
)
write-one m (file_sink v (some s)) file_is = (
  _,
  refl,
  file_is,
  refl,
  elim (Bool-cases (at_least m.severity v)) [
    | inl e ↦ rw e (sym (append_assoc s.file s.buffer m.writer))
    | inr e ↦ rw e (sym (append-nil (s.file ++ s.buffer)))
  ],
)
write-one m (file_sink v none) o = elim o [ ]

destroy-content : (k : Sink) → IsOpen k → destroy k ≡ some (content k ++ [])
unfolding destroy content
destroy-content (std_stream_sink v s u) std_is = ap some (sym (append-nil _))
destroy-content (file_sink v (some s)) file_is = ap some (sym (append-nil _))
destroy-content (file_sink v none) o = elim o [ ]

-- An open sink takes any sequence of messages without failing an `assert`, and is destroyed with a
-- file that has grown by the text of exactly those at or above its level, in order.
pub destroy-write_all :
    (ms : List LogMessage) (k : Sink)
    → IsOpen k
    → (k' : Sink) × (write_all ms k ≡ some k')
      × (destroy k' ≡ some (content k ++ accepted (level k) ms))
unfolding write_all accepted
destroy-write_all [] k o = (k, refl, destroy-content k o)
destroy-write_all (m ∷ ms) k o =
    let (k1, e1, o1, same, grown) = write-one m k o in
    let (k2, e2, done) = destroy-write_all ms k1 o1 in
    (k2, rw (e1, ◌>>=◌) e2, done ∙ ap some (ap₂ ◌++◌ grown (ap (λ v. accepted v ms) same) ∙ joined))
  where
    joined :
        (content k ++ (if at_least m.severity (level k) then m.writer else []))
          ++ accepted (level k) ms
        ≡ content k
          ++ (if at_least m.severity (level k)
              then m.writer ++ accepted (level k) ms
              else accepted (level k) ms)
    joined = elim (Bool-cases (at_least m.severity (level k))) [
      | inl e ↦ rw e (append_assoc (content k) m.writer (accepted (level k) ms))
      | inr e ↦ rw e (ap (λ (t : List ℕ). t ++ accepted (level k) ms) (append-nil (content k)))
    ]
