-- ===== src/Logging/MessageBus/Laws.antt =====
-- The hand-over of new channels to the worker.
use libni.Base.{
  ℕ, zero, suc, ◌+◌, ◌<◌, ◌≡◌, ◌≢◌, refl, sym, ap, ◌∙◌, arith, List, [], ◌∷◌, ◌++◌, append-nil,
  append_assoc, some, update, update_self, ◌==◌, ==_ne, lt→ltb, if_false, length,
}
use libni.Spsc.Ring
use libni.Spsc.Ring.{Ring, pointer_slot}
use libni.Spsc.Ring.Inv.{Holds}
use libni.Spsc.Ring.Refine.{push_refines, pop_refines}
use libni.Spsc.Queue
use libni.Logging.MessageBus.{MessageBus, get_input_channel, collect, collect_pending_channels}

-- The channels that the worker knows, and those that wait for it.
pub record Knows (bus : MessageBus) (known pending : List ℕ) : Type 0 where
  pub channels : bus.m_channels ≡ known
  pub waiting : Holds bus.m_pending_channels pending

collects :
    (fuel : ℕ) (bus : MessageBus) (known pending : List ℕ)
    → Knows bus known pending
    → length pending < fuel
    → (bus' : MessageBus) × (collect fuel bus ≡ some bus')
      × Knows bus' (known ++ pending) []
      × (bus'.channel_at ≡ bus.channel_at)
unfolding collect Queue.pop
collects zero bus known pending k h = absurd (omega arith)
collects (suc f) bus known [] k h =
    let (answer, holds) = pop_refines k.waiting in
    (
      record bus { m_pending_channels = (Ring.pop bus.m_pending_channels).1 },
      rw answer refl,
      record { channels = k.channels ∙ sym (append-nil known); waiting = holds },
      refl,
    )
collects (suc f) bus known (p ∷ ps) k h =
    let (answer, holds) = pop_refines k.waiting in
    let (bus', e, k', same) =
      collects f
        (record bus {
          m_pending_channels = (Ring.pop bus.m_pending_channels).1;
          m_channels = bus.m_channels ++ ((Ring.pop bus.m_pending_channels).0 ∷ []);
        })
        (known ++ (p ∷ [])) ps
        (record {
          channels =
              ap (λ (x : ℕ). bus.m_channels ++ (x ∷ [])) answer
              ∙ ap (λ (l : List ℕ). l ++ (p ∷ [])) k.channels;
          waiting = holds;
        })
        (omega arith) in
    (
      bus',
      if_false _ (ap (λ (x : ℕ). x == 0) answer ∙ ==_ne p 0 (k.waiting.full 0 (omega arith))) ∙ e,
      record { channels = k'.channels ∙ append_assoc known (p ∷ []) ps; waiting = k'.waiting },
      same,
    )

-- `collect_pending_channels` returns, and the worker then knows the channels that it knew, followed
-- by all those that waited, in the order in which they were asked for; none waits any more.
pub collect_pending_channels_lem :
    {bus : MessageBus} {known pending : List ℕ}
    → Knows bus known pending
    → (bus' : MessageBus) × (collect_pending_channels bus ≡ some bus')
      × Knows bus' (known ++ pending) []
      × (bus'.channel_at ≡ bus.channel_at)
unfolding collect_pending_channels
collect_pending_channels_lem {bus} {known} {pending} k =
    collects (bus.m_pending_channels.size + 1) bus known pending k (omega (arith, k.waiting.room))

-- While fewer channels wait than there is room for, `get_input_channel` returns the new channel at
-- once, and it then waits behind the others.
pub get_input_channel_lem :
    {bus : MessageBus} {known pending : List ℕ} (p : ℕ) (r : Ring ℕ)
    → Knows bus known pending
    → p ≢ 0
    → length pending < bus.m_pending_channels.size
    → (bus' : MessageBus) × (get_input_channel p r bus ≡ (some p, bus'))
      × Knows bus' known (pending ++ (p ∷ []))
      × (bus'.channel_at p ≡ some r)
unfolding get_input_channel Queue.push
get_input_channel_lem {bus} {known} {pending} p r k ne lt =
    let (answer, holds) = push_refines p k.waiting ne in
    (
      record bus {
        m_pending_channels = (Ring.push p bus.m_pending_channels).1;
        channel_at = update bus.channel_at p (some r);
      },
      rw (answer, lt→ltb (length pending) bus.m_pending_channels.size lt) refl,
      record { channels = k.channels; waiting = fits holds },
      update_self bus.channel_at p (some r),
    )
  where
    fits :
        Holds
          (Ring.push p bus.m_pending_channels).1
          (Queue.push bus.m_pending_channels.size p pending).1
        → Holds (Ring.push p bus.m_pending_channels).1 (pending ++ (p ∷ []))
    fits = rw (lt→ltb (length pending) bus.m_pending_channels.size lt) (λ h. h)
