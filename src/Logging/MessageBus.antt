-- ===== src/Logging/MessageBus.antt =====
-- include/ni/logging/message_bus.hh and src/logging/message_bus.cc: class MessageBus, one call at a
-- time. Channels stand at addresses. A thread that sleeps in `wait` is not modelled here, only the
-- word that it sleeps on.
pub mod Laws
pub mod Wait
pub mod Threads
use libni.Base.{
  ℕ, zero, suc, ◌+◌, ◌≡◌, Bool, true, false, List, [], ◌∷◌, ◌++◌, Option, some, none, update, ◌==◌,
  if◌then◌else◌,
}
use libni.Spsc.Ring
use libni.Spsc.Ring.{Ring, pointer_slot, Created, created}

pub record MessageBus : Type 0 where
  pub m_queue_size : ℕ
  pub m_channels : List ℕ
  pub m_pending_channels : Ring ℕ
  pub m_futex : ℕ
  pub channel_at : ℕ → Option (Ring ℕ)

-- `get_input_channel()` up to one turn of its loop, where the new Channel `r` stands at `p`: what it
-- returns, or none when `push` finds no room and the loop turns again.
unfoldable pub get_input_channel : (p : ℕ) → Ring ℕ → MessageBus → Option ℕ × MessageBus
get_input_channel p r bus =
    let (pushed, pending) = Ring.push p bus.m_pending_channels in
    if pushed
    then (
      some p,
      record bus { m_pending_channels = pending; channel_at = update bus.channel_at p (some r) },
    )
    else (none, bus)

-- The loop on fuel; `none` means that the fuel ran out.
unfoldable pub collect : (fuel : ℕ) → MessageBus → Option MessageBus
collect zero bus = none
collect (suc f) bus =
    let (channel, pending) = Ring.pop bus.m_pending_channels in
    let rest = collect f (record bus {
      m_pending_channels = pending;
      m_channels = bus.m_channels ++ (channel ∷ []);
    }) in
    if channel == 0 then some (record bus { m_pending_channels = pending }) else rest

-- One turn for each slot, and one to find it empty.
unfoldable pub collect_pending_channels : MessageBus → Option MessageBus
unfolding collect
collect_pending_channels bus = collect (bus.m_pending_channels.size + 1) bus

-- `notify()`, with whether it wakes a sleeper
unfoldable pub notify : MessageBus → Bool × MessageBus
notify bus = if bus.m_futex == 0 then (true, record bus { m_futex = 1 }) else (false, bus)
