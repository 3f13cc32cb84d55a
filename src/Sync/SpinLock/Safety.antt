-- ===== src/Sync/SpinLock/Safety.antt =====
-- The flag is set exactly while one thread holds the lock.
use libni.Base.{ℕ, ◌≡◌, ◌≢◌, ◌↔◌, refl, arith, true, false, update}
use libni.Sync.SpinLock.{
  Pc, outside, holding, System, Step, try_win, try_lose, enter, load_locked, load_free,
  exchange_win, exchange_lose, unlock, init, Reach, start, later,
}

record Inv (t : System) : Type 0 where
  marked : (i : ℕ) → t.pc i ≡ holding → t.locked ≡ true
  alone : (i j : ℕ) → t.pc i ≡ holding → t.pc j ≡ holding → i ≡ j
  held : t.locked ≡ true → (i : ℕ) × (t.pc i ≡ holding)

-- A step that leaves the flag alone, of a thread that does not hold the lock before or after.
Inv-wait :
    {t : System} (i : ℕ) (p : Pc)
    → t.pc i ≢ holding
    → p ≢ holding
    → Inv t
    → Inv (record t { pc = update t.pc i p })
Inv-wait {t} i p before after inv = record {
  marked = λ j e. ground (arith, inv.marked j);
  alone = λ j k e f. ground (arith, inv.alone j k);
  held = λ e. let (j, h) = inv.held e in (j, ground arith);
}

Inv-acquire :
    {t : System} (i : ℕ)
    → t.locked ≡ false
    → Inv t
    → Inv (record { locked = true; pc = update t.pc i holding })
Inv-acquire {t} i free inv = record {
  marked = λ j e. refl;
  alone = λ j k e f. ground (arith, inv.marked j, inv.marked k);
  held = λ e. (i, ground arith);
}

Inv-release :
    {t : System} (i : ℕ)
    → t.pc i ≡ holding
    → Inv t
    → Inv (record { locked = false; pc = update t.pc i outside })
Inv-release {t} i h inv = record {
  marked = λ j e. ground (arith, inv.alone i j);
  alone = λ j k e f. ground (arith, inv.alone j k);
  held = λ e. cc;
}

Step-Inv : {t u : System} → Step t u → Inv t → Inv u
Step-Inv (try_win i e free) inv = Inv-acquire i free inv
Step-Inv (try_lose i e busy) inv = inv
Step-Inv (enter i e) inv = Inv-wait i _ (λ h. cc) (λ h. cc) inv
Step-Inv (load_locked i p e busy) inv = Inv-wait i _ (λ h. cc) (λ h. cc) inv
Step-Inv (load_free i p e free) inv = Inv-wait i _ (λ h. cc) (λ h. cc) inv
Step-Inv (exchange_win i p e free) inv = Inv-acquire i free inv
Step-Inv (exchange_lose i p e) inv = Inv-wait i _ (λ h. cc) (λ h. cc) inv
Step-Inv (unlock i h) inv = Inv-release i h inv

Inv-init : Inv init
Inv-init = record { marked = λ i e. cc; alone = λ i j e f. cc; held = λ e. cc }

Reach-Inv : {t : System} → Reach t → Inv t
Reach-Inv start = Inv-init
Reach-Inv (later r st) = Step-Inv st (Reach-Inv r)

-- In every state that any number of threads reach, two threads that hold the lock are one thread.
pub mutual_exclusion :
    {t : System} (i j : ℕ) → Reach t → t.pc i ≡ holding → t.pc j ≡ holding → i ≡ j
mutual_exclusion i j r = (Reach-Inv r).alone i j

-- In every state that threads reach, the flag is set exactly if some thread holds the lock, so a
-- thread that waits for the flag waits for one that can unlock.
pub locked_iff : {t : System} → Reach t → (t.locked ≡ true) ↔ ((i : ℕ) × (t.pc i ≡ holding))
locked_iff r = let inv = Reach-Inv r in (inv.held, λ (i, h). inv.marked i h)
