-- ===== src/Tests/Sync.antt =====
-- include/ni/sync: a thread that takes the lock while another waits.
use libni.Base.{ℕ, ◌≡◌, refl, true, update}
use libni.Sync.Sleep
use libni.Sync.Sleep.{Wait, pause_instruction, nanosleep, wait-waits}
use libni.Sync.SpinLock.{outside, spinning, holding, System, try_win, enter, Reach, start, later}
use libni.Sync.SpinLock.Safety.{mutual_exclusion}

abbrev contended : System
contended = record {
  locked = true;
  pc = update (update (λ _. outside) 0 holding) 1 (spinning (Sleep.make 2048));
}

contended-Reach : Reach contended
contended-Reach = later (later start (try_win 0 refl refl)) (enter 1 refl)

mutual_exclusion_example : ◌≡◌ {A = ℕ} 0 0
mutual_exclusion_example = mutual_exclusion {t = contended} 0 0 contended-Reach refl refl
