-- ===== src/Logging/Logger/Laws.antt =====
-- What a Logger sends to its channel and writes to its sinks.
use libni.Base.{
  ◌<◌, ◌↔◌, Bool, true, subst, dec_lt, lt→ltb, not-ltb, ℕ_discrete, if_true, ==_eq, ==_ne, ℕ, ◌≡◌,
  ◌≢◌, refl, sym, ap, ap₂, ◌∙◌, arith, List, [], ◌∷◌, ◌++◌, append-nil, append_assoc, some, none,
  ◌>>=◌, if◌then◌else◌, Bool-cases, inl, inr, length, map,
}
use libni.Spsc.Ring
use libni.Spsc.Ring.{Ring, pointer_slot}
use libni.Spsc.Ring.Inv.{Holds}
use libni.Spsc.Ring.Refine.{push_refines}
use libni.Spsc.Queue
use libni.Spsc.Queue.{answered}
use libni.Logging.{LogSeverity, OverflowStrategy, retry, drop_message, at_least, LogMessage}
use libni.Logging.Sink
use libni.Logging.Sink.{Sink, level, write}
use libni.Logging.Sink.Laws.{IsOpen, content, accepted, write-one, std_is, file_is}
use libni.Logging.MessageBus.{MessageBus, notify}
use libni.Logging.Logger.{
  Logger, Logged, sent, dropped, turn_again, overflow, log, write_each, save,
}

-- `ks'` are the sinks `ks` after `ms`: each still open, at its level, with the text of the messages
-- that it accepts added to what it had.
pub Wrote : List Sink → List LogMessage → List Sink → Type 0
Wrote [] ms [] = Unit
Wrote [] ms (k' ∷ ks') = ⊥
Wrote (k ∷ ks) ms [] = ⊥
Wrote (k ∷ ks) ms (k' ∷ ks') =
    IsOpen k'
    × (level k' ≡ level k)
    × (content k' ≡ content k ++ accepted (level k) ms)
    × Wrote ks ms ks'

unfoldable pub AllOpen : List Sink → Type 0
AllOpen [] = Unit
AllOpen (k ∷ ks) = IsOpen k × AllOpen ks

pub AllOpen-Wrote :
    (ks : List Sink) (ms : List LogMessage) (ks' : List Sink) → Wrote ks ms ks' → AllOpen ks'
unfolding Wrote AllOpen
AllOpen-Wrote [] ms [] w = tt
AllOpen-Wrote [] ms (k' ∷ ks') w = absurd w
AllOpen-Wrote (k ∷ ks) ms [] w = absurd w
AllOpen-Wrote (k ∷ ks) ms (k' ∷ ks') w = (w.0, AllOpen-Wrote ks ms ks' w.3)

pub accepted-append :
    (v : LogSeverity) (ms ns : List LogMessage)
    → accepted v (ms ++ ns) ≡ accepted v ms ++ accepted v ns
unfolding accepted
accepted-append v [] ns = refl
accepted-append v (m ∷ ms) ns = elim (Bool-cases (at_least m.severity v)) [
  | inl e ↦
      rw (e, accepted-append v ms ns) (sym (append_assoc m.writer (accepted v ms) (accepted v ns)))
  | inr e ↦ rw e (accepted-append v ms ns)
]

pub Wrote-nil : (ks : List Sink) → AllOpen ks → Wrote ks [] ks
unfolding Wrote AllOpen accepted
Wrote-nil [] o = tt
Wrote-nil (k ∷ ks) o = (o.0, refl, sym (append-nil (content k)), Wrote-nil ks o.1)

pub Wrote-append :
    (ks : List Sink) (ms : List LogMessage) (ks1 : List Sink) (ns : List LogMessage)
    (ks2 : List Sink)
    → Wrote ks ms ks1
    → Wrote ks1 ns ks2
    → Wrote ks (ms ++ ns) ks2
unfolding Wrote
Wrote-append [] ms [] ns [] a b = tt
Wrote-append [] ms [] ns (k2 ∷ ks2) a b = absurd b
Wrote-append [] ms (k1 ∷ ks1) ns ks2 a b = absurd a
Wrote-append (k ∷ ks) ms [] ns ks2 a b = absurd a
Wrote-append (k ∷ ks) ms (k1 ∷ ks1) ns [] a b = absurd b
Wrote-append (k ∷ ks) ms (k1 ∷ ks1) ns (k2 ∷ ks2) a b = (
  b.0,
  b.1 ∙ a.1,
  b.2
      ∙ ap₂ ◌++◌ a.2 (ap (λ v. accepted v ns) a.1)
      ∙ append_assoc (content k) (accepted (level k) ms) (accepted (level k) ns)
      ∙ ap (λ (t : List ℕ). content k ++ t) (sym (accepted-append (level k) ms ns)),
  Wrote-append ks ms ks1 ns ks2 a.3 b.3,
)

accepted-one :
    (v : LogSeverity) (m : LogMessage)
    → (if at_least m.severity v then m.writer else []) ≡ accepted v (m ∷ [])
unfolding accepted
accepted-one v m = elim (Bool-cases (at_least m.severity v)) [
  | inl e ↦ rw e (sym (append-nil m.writer))
  | inr e ↦ rw e refl
]

writes_each :
    (m : LogMessage) (ks : List Sink)
    → AllOpen ks
    → (ks' : List Sink) × (write_each m ks ≡ some ks') × Wrote ks (m ∷ []) ks'
unfolding write_each AllOpen Wrote
writes_each m [] o = ([], refl, tt)
writes_each m (k ∷ ks) o =
    let (k', e, open', same, grown) = write-one m k o.0 in
    let (ks', es, w) = writes_each m ks o.1 in
    (
      k' ∷ ks',
      rw (e, ◌>>=◌) (rw (es, ◌>>=◌) refl),
      (open', same, grown ∙ ap (λ (t : List ℕ). content k ++ t) (accepted-one (level k) m), w),
    )

-- `save` succeeds on a logger whose sinks are all open: the message is in the sinks that accept it,
-- and the level, the connection and the strategy stay.
pub save_lem :
    (m : LogMessage) (l : Logger)
    → AllOpen l.m_sinks
    → (ks : List Sink) × (save m l ≡ some (record l { m_sinks = ks })) × Wrote l.m_sinks (m ∷ []) ks
unfolding save
save_lem m l o = let (ks, e, w) = writes_each m l.m_sinks o in (ks, rw (e, ◌>>=◌) refl, w)

content-flush :
    (k : Sink)
    → IsOpen k
    → (content (Sink.flush k) ≡ content k)
      × IsOpen (Sink.flush k)
      × (level (Sink.flush k) ≡ level k)
unfolding content Sink.flush Sink.fflush level
content-flush (Sink.std_stream_sink v s u) std_is = (append-nil _, std_is, refl)
content-flush (Sink.file_sink v (some s)) file_is = (append-nil _, file_is, refl)
content-flush (Sink.file_sink v none) o = elim o [ ]

pub Wrote-flush : (ks : List Sink) → AllOpen ks → Wrote ks [] (map Sink.flush ks)
unfolding Wrote AllOpen accepted
Wrote-flush [] o = tt
Wrote-flush (k ∷ ks) o =
    let (kept, o', same) = content-flush k o.0 in
    (o', same, kept ∙ sym (append-nil (content k)), Wrote-flush ks o.1)

-- The bus was notified: its word is set, nothing else of it is changed, and a sleeper is woken
-- exactly if the word was 0.
pub record Notified (bus : MessageBus) (woken : Bool) (bus' : MessageBus) : Type 0 where
  pub set : bus'.m_futex ≢ 0
  pub kept : bus' ≡ record bus { m_futex = bus'.m_futex }
  pub wakes : (woken ≡ true) ↔ (bus.m_futex ≡ 0)

notify-Notified : (bus : MessageBus) → Notified bus (notify bus).0 (notify bus).1
unfolding notify
notify-Notified bus = elim (ℕ_discrete bus.m_futex 0) [
  | yes z ↦
      rw (==_eq bus.m_futex 0 z)
        (record { set = λ e. omega arith; kept = refl; wakes = (λ _. z, λ _. refl) })
  | no ne ↦
      rw (==_ne bus.m_futex 0 ne)
        (record { set = ne; kept = refl; wakes = (λ e. cc e, λ z. absurd (ne z)) })
]

-- What a turn of `log` may come to, on a channel that holds `q`.
pub data Outcome (p : ℕ) (l : Logger) (channel : Ring ℕ) (q : List ℕ) (bus : MessageBus)
    : Logged → Type 0 where
  queued :
      {r : Ring ℕ} {woken : Bool} {bus' : MessageBus}
      → length q < channel.size
      → Holds r (q ++ (p ∷ []))
      → Notified bus woken bus'
      → Outcome p l channel q bus (sent r woken bus')
  lost :
      length q ≡ channel.size
      → l.m_overflow_strategy ≡ drop_message
      → Outcome p l channel q bus dropped
  waits :
      length q ≡ channel.size → l.m_overflow_strategy ≡ retry → Outcome p l channel q bus turn_again

overflow-Outcome :
    (p : ℕ) (l : Logger) (channel : Ring ℕ) (q : List ℕ) (bus : MessageBus) (s : OverflowStrategy)
    → length q ≡ channel.size
    → l.m_overflow_strategy ≡ s
    → Outcome p l channel q bus (overflow s)
unfolding overflow
overflow-Outcome p l channel q bus retry full e = waits full e
overflow-Outcome p l channel q bus drop_message full e = lost full e

-- A turn of `log` with a message that is not null, on a channel that holds `q`: if there is room,
-- the message is queued behind the others and the bus notified, so that its word is set, with a
-- sleeper woken exactly if it was 0; if the channel is full, the message is dropped or the loop
-- turns again, as the strategy says.
pub log_lem :
    {channel : Ring ℕ} {q : List ℕ} (p : ℕ) (l : Logger) (bus : MessageBus)
    → Holds channel q
    → p ≢ 0
    → Outcome p l channel q bus (log p l channel bus)
unfolding log
log_lem {channel} {q} p l bus h ne =
    let (answer, holds) = push_refines p h ne in
    let pushed = answer ∙ answered channel.size p q in
    elim (dec_lt (length q) channel.size) [
      | yes lt ↦
          let e = lt→ltb (length q) channel.size lt in
          rw (pushed ∙ e) (
            queued lt
              (subst (Holds (Ring.push p channel).1) (Queue.queued channel.size p q ∙ if_true _ e)
                holds)
              (notify-Notified bus))
      | no n ↦
          rw (pushed ∙ not-ltb (length q) channel.size n)
            (overflow-Outcome p l channel q bus l.m_overflow_strategy (omega (arith, h.room)) refl)
    ]
