-- ===== src/Logging/LogWorker/Laws.antt =====
-- A worker that empties a channel.
use libni.Base.{
  ℕ, suc, ◌≡◌, ◌≢◌, refl, ap, ◌∙◌, arith, Bool, true, List, [], ◌∷◌, ◌++◌, Option, some, none,
  ◌>>=◌, update, update_self, update_ne, ==_ne, if_false, length, map,
}
use libni.Spsc.Ring
use libni.Spsc.Ring.{Ring, pointer_slot}
use libni.Spsc.Ring.Inv.{Holds}
use libni.Spsc.Ring.Refine.{pop_refines}
use libni.Spsc.Queue
use libni.Logging.{LogMessage}
use libni.Logging.Sink
use libni.Logging.Sink.{Sink}
use libni.Logging.Logger
use libni.Logging.Logger.{Logger}
use libni.Logging.Logger.Laws.{
  AllOpen, Wrote, AllOpen-Wrote, Wrote-nil, Wrote-append, Wrote-flush, save_lem,
}
use libni.Logging.LogWorker.{
  World, save_message, serve, serve_all, flush_loggers, turns, stops, settle, turn, run_stopping,
}

unfoldable pub NotIn : ℕ → List ℕ → Type 0
NotIn p [] = Unit
NotIn p (x ∷ xs) = (p ≢ x) × NotIn p xs

-- At the addresses `ps`, all different, stand the messages `ms`, each for the logger at `l`.
unfoldable pub Carries : (ℕ → Option LogMessage) → ℕ → List ℕ → List LogMessage → Type 0
Carries at l [] [] = Unit
Carries at l [] (m ∷ ms) = ⊥
Carries at l (p ∷ ps) [] = ⊥
Carries at l (p ∷ ps) (m ∷ ms) = (at p ≡ some m) × (m.logger ≡ l) × NotIn p ps × Carries at l ps ms

Carries-update :
    (at : ℕ → Option LogMessage) (l p : ℕ) (ps : List ℕ) (ms : List LogMessage)
    → NotIn p ps
    → Carries at l ps ms
    → Carries (update at p none) l ps ms
unfolding NotIn Carries
Carries-update at l p [] [] n c = tt
Carries-update at l p [] (m ∷ ms) n c = c
Carries-update at l p (x ∷ ps) [] n c = c
Carries-update at l p (x ∷ ps) (m ∷ ms) n c =
    (update_ne at p none x n.0 ∙ c.0, c.1, c.2, Carries-update at l p ps ms n.1 c.3)

-- The channel at `c` holds the messages `ms`, oldest first, for the logger `k` at `l`, whose sinks
-- are open.
pub record Ready (w : World) (c l : ℕ) (ps : List ℕ) (ms : List LogMessage) (k : Logger)
    : Type 0 where
  pub ring : Ring ℕ
  pub channel : w.channel_at c ≡ some ring
  pub holds : Holds ring ps
  pub carries : Carries w.message_at l ps ms
  pub logger : w.logger_at l ≡ some k
  pub sinks_open : AllOpen k.m_sinks

-- The world, once the channel at `c` was popped and the message it had saved to the sinks `ks`.
abbrev saved : World → ℕ → Ring ℕ → ℕ → ℕ → Logger → List Sink → World
saved w c r p l k ks = record w {
  channel_at = update w.channel_at c (some (Ring.pop r).1);
  message_at = update w.message_at p none;
  logger_at = update w.logger_at l (some (record k { m_sinks = ks }));
}

save_message_lem :
    (w : World) (p l : ℕ) (m : LogMessage) (k : Logger)
    → w.message_at p ≡ some m
    → m.logger ≡ l
    → w.logger_at l ≡ some k
    → AllOpen k.m_sinks
    → (ks : List Sink) × Wrote k.m_sinks (m ∷ []) ks
      × (save_message p w
          ≡ some (
            record w {
              message_at = update w.message_at p none;
              logger_at = update w.logger_at l (some (record k { m_sinks = ks }));
            },
            l,
          ))
unfolding save_message
save_message_lem w p l m k em el ek o =
    let (ks, e, wrote) = save_lem m k o in
    (
      ks,
      wrote,
      rw (em, ◌>>=◌)
          (rw (ap w.logger_at el ∙ ek, ◌>>=◌)
            (rw (e, ◌>>=◌)
              (ap
                (λ (t : ℕ). some (
                  record w {
                    message_at = update w.message_at p none;
                    logger_at = update w.logger_at t (some (record k { m_sinks = ks }));
                  },
                  t,
                ))
                el))),
    )

serves :
    {w : World} {c l : ℕ} {ps : List ℕ} {ms : List LogMessage} {k : Logger} (p : ℕ) (m : LogMessage)
    (seen : List ℕ)
    → Ready w c l (p ∷ ps) (m ∷ ms) k
    → (w' : World) × (ks : List Sink) × (serve c w seen ≡ some (w', seen ++ (l ∷ [])))
      × Wrote k.m_sinks (m ∷ []) ks
      × Ready w' c l ps ms (record k { m_sinks = ks })
unfolding serve Queue.pop Carries
serves {w} {c} {l} {ps} {ms} {k} p m seen r =
    let (answer, holds) = pop_refines r.holds in
    let (ks, wrote, e) =
      save_message_lem (record w { channel_at = update w.channel_at c (some (Ring.pop r.ring).1) })
        p l m k r.carries.0 r.carries.1 r.logger r.sinks_open in
    (
      saved w c r.ring p l k ks,
      ks,
      rw (r.channel, ◌>>=◌)
          (rw answer
            (if_false _ (==_ne p 0 (r.holds.full 0 (omega arith))) ∙ (rw (e, ◌>>=◌) refl))),
      wrote,
      record {
        ring = (Ring.pop r.ring).1;
        channel = update_self w.channel_at c (some (Ring.pop r.ring).1);
        holds = holds;
        carries = Carries-update w.message_at l p ps ms r.carries.2 r.carries.3;
        logger = update_self w.logger_at l (some (record k { m_sinks = ks }));
        sinks_open = AllOpen-Wrote k.m_sinks (m ∷ []) ks wrote;
      },
    )

turns_once :
    {w : World} {c l : ℕ} {ps : List ℕ} {ms : List LogMessage} {k : Logger} (p : ℕ) (m : LogMessage)
    (stopping : Bool) (spins : ℕ)
    → Ready w c l (p ∷ ps) (m ∷ ms) k
    → (w' : World) × (ks : List Sink) × (turn stopping spins (c ∷ []) w ≡ some (turns 0 w'))
      × Wrote k.m_sinks (m ∷ []) ks
      × Ready w' c l ps ms (record k { m_sinks = ks })
unfolding turn serve_all settle flush_loggers Logger.flush
turns_once {w} {c} {l} {ps} {ms} {k} p m stopping spins r =
    let (w', ks, e, wrote, r') = serves p m [] r in
    (
      record w' {
        logger_at = update w'.logger_at l (some (record k { m_sinks = map Sink.flush ks }));
      },
      map Sink.flush ks,
      rw (e, ◌>>=◌) (rw (r'.logger, ◌>>=◌) refl),
      Wrote-append k.m_sinks (m ∷ []) ks [] (map Sink.flush ks) wrote
          (Wrote-flush ks r'.sinks_open),
      record {
        ring = r'.ring;
        channel = r'.channel;
        holds = r'.holds;
        carries = r'.carries;
        logger = update_self w'.logger_at l (some (record k { m_sinks = map Sink.flush ks }));
        sinks_open = AllOpen-Wrote ks [] (map Sink.flush ks) (Wrote-flush ks r'.sinks_open);
      },
    )

stops_at_once :
    {w : World} {c l : ℕ} {k : Logger} (spins : ℕ)
    → Ready w c l [] [] k
    → (w' : World) × (turn true spins (c ∷ []) w ≡ some (stops w')) × Ready w' c l [] [] k
unfolding turn serve_all settle serve Queue.pop
stops_at_once {w} {c} {l} {k} spins r =
    let (answer, holds) = pop_refines r.holds in
    (
      record w { channel_at = update w.channel_at c (some (Ring.pop r.ring).1) },
      rw (r.channel, ◌>>=◌) (rw answer refl),
      record {
        ring = (Ring.pop r.ring).1;
        channel = update_self w.channel_at c (some (Ring.pop r.ring).1);
        holds = holds;
        carries = r.carries;
        logger = r.logger;
        sinks_open = r.sinks_open;
      },
    )

-- A worker that is told to stop, on a channel with `n` messages for one logger, returns within
-- `n + 1` turns, and not before all of them are written: each sink of the logger has the text of
-- the messages at or above its level, in the order in which they were logged, and the channel is
-- empty.
pub run_stopping_lem :
    (ps : List ℕ) (ms : List LogMessage) (spins : ℕ) {w : World} {c l : ℕ} {k : Logger}
    → Ready w c l ps ms k
    → (w' : World) × (ks : List Sink) × (run_stopping (suc (length ps)) spins (c ∷ []) w ≡ some w')
      × Wrote k.m_sinks ms ks
      × Ready w' c l [] [] (record k { m_sinks = ks })
unfolding run_stopping Carries
run_stopping_lem [] [] spins {k} r =
    let (w', e, r') = stops_at_once spins r in
    (w', k.m_sinks, rw (e, ◌>>=◌) refl, Wrote-nil k.m_sinks r.sinks_open, r')
run_stopping_lem [] (m ∷ ms) spins r = absurd r.carries
run_stopping_lem (p ∷ ps) [] spins r = absurd r.carries
run_stopping_lem (p ∷ ps) (m ∷ ms) spins {k} r =
    let (w1, ks1, e, wrote, r1) = turns_once p m true spins r in
    let (w2, ks2, e2, wrote2, r2) = run_stopping_lem ps ms 0 r1 in
    (w2, ks2, rw (e, ◌>>=◌) e2, Wrote-append k.m_sinks (m ∷ []) ks1 ms ks2 wrote wrote2, r2)
