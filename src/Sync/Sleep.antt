-- ===== src/Sync/Sleep.antt =====
-- include/ni/sync/sleep.hh: class Pause.
use libni.Base.{ℕ, zero, suc, ◌+◌, ◌^◌, ◌<◌, ◌≡◌, min, ltb, if◌then◌else◌, arith, u32}

pub record Pause : Type 0 where
  pub max_spins : ℕ
  pub spins : ℕ

-- The `pause` instruction, or a sleep of so many nanoseconds.
pub data Wait : Type 0 where
  pause_instruction : Wait
  nanosleep : ℕ → Wait

unfoldable pub make : ℕ → Pause
make max_spins = record { max_spins = max_spins; spins = 0 }

-- `operator()`
unfoldable pub wait : Pause → Wait × Pause
wait p =
    if ltb p.spins p.max_spins
    then (pause_instruction, record p { spins = u32 (p.spins + 1) })
    else (nanosleep 500000, p)

unfoldable pub reset : Pause → Pause
reset p = record p { spins = 0 }

-- The backing off after `n` more calls.
pub waits : ℕ → Pause → Pause
waits zero p = p
waits (suc n) p = (wait (waits n p)).1

waits-spins :
    (n max_spins : ℕ)
    → max_spins < 2 ^ 32
    → ((waits n (make max_spins)).spins ≡ min n max_spins)
      × ((waits n (make max_spins)).max_spins ≡ max_spins)
unfolding waits make wait
waits-spins zero m h = omega arith
waits-spins (suc n) m h = ground (arith, waits-spins n m h)

-- Of the calls on a new `Pause`, or after a `reset`, the first `max_spins` execute the pause
-- instruction, and every later one sleeps for half a millisecond.
pub wait-waits :
    (n max_spins : ℕ)
    → max_spins < 2 ^ 32
    → ((wait (waits n (make max_spins))).0
        ≡ (if ltb n max_spins then pause_instruction else nanosleep 500000))
      × (reset (waits n (make max_spins)) ≡ make max_spins)
unfolding wait reset make
wait-waits n m h = ground (arith, waits-spins n m h)
