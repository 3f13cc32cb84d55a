-- ===== src/Logging/MessageBus/Threads/Wake.antt =====
-- Which messages wake the worker that sleeps in MessageBus::wait, and which do not.
use libni.Base.{
  ℕ, ◌+◌, ◌<◌, ◌≤◌, ◌≡◌, ◌≢◌, ◌⊎◌, inl, inr, refl, sym, ap, subst, ◌∙◌, arith, Bool, true, false,
  update, update_self, update_ne, update_all, if◌then◌else◌, if_true, ==_eq, ℕ_discrete,
}
use libni.Sync.Futex.{Reply, woken, failed, Kernel, wake}
use libni.Logging.MessageBus.Wait.{turn}
use libni.Logging.MessageBus.Threads.{
  Worker, looking, found_nothing, calling, asleep, Notifier, idle, loading, exchanging, waking,
  State, after_reply, woken_worker, Waits, Step, publish, load_set, load_clear, exchange_set,
  exchange_clear, wakes, take, find_nothing, clear, sleep, fails, Run, here, later, new_bus,
}

-- Some thread of the first `n` stands where `P` says.
abbrev Some : ℕ → (ℕ → Notifier) → (Notifier → Type 0) → Type 0
Some n f P = (i : ℕ) × (i < n) × P (f i)

Some-new :
    {n : ℕ} (f : ℕ → Notifier) (P : Notifier → Type 0) (i : ℕ) (c : Notifier)
    → i < n
    → P c
    → Some n (update f i c) P
Some-new f P i c lt p = (i, lt, subst P (sym (update_self f i c)) p)

Some-kept :
    {n : ℕ} (f : ℕ → Notifier) (P : Notifier → Type 0) (i : ℕ) (c : Notifier)
    → (P (f i) → ⊥)
    → Some n f P
    → Some n (update f i c) P
Some-kept f P i c not (j, lt, p) =
    (j, lt, subst P (sym (update_ne f i c j (λ e. not (subst (λ m. P (f m)) (sym e) p)))) p)

-- A thread that has yet to look at the word.
abbrev Before : Notifier → Type 0
Before idle = ⊥
Before loading = Unit
Before exchanging = Unit
Before waking = ⊥

not-Before : {c d : Notifier} → c ≡ d → (Before d → ⊥) → Before c → ⊥
not-Before e not b = not (subst Before e b)

record Inv (n : ℕ) (t : State) : Type 0 where
  noted : Waits t.worker → 1 ≤ t.since → (t.word ≢ 0) ⊎ Some n t.thread Before
  told : t.worker ≡ asleep → t.word ≢ 0 → Some n t.thread (λ c. c ≡ waking)

after_reply-awake : (r : Reply) (errno : ℕ) → (after_reply r errno).0 ≢ asleep
after_reply-awake r errno = go (turn r errno).0
  where
    go : (b : Bool) → (if b then calling else looking) ≢ asleep
    go true e = cc e
    go false e = cc e

module _ (k : Kernel) where
  asleep-woken : (errno : ℕ) → woken_worker k asleep errno ≡ after_reply woken errno
  asleep-woken errno = if_true _ (==_eq (wake k 1 1) 0 (k.wakes 0))

  woken_worker-awake : (w : Worker) (errno : ℕ) → (woken_worker k w errno).0 ≢ asleep
  woken_worker-awake looking errno e = cc e
  woken_worker-awake found_nothing errno e = cc e
  woken_worker-awake calling errno e = cc e
  woken_worker-awake asleep errno e =
      after_reply-awake woken errno (sym (ap (λ (p : Worker × ℕ). p.0) (asleep-woken errno)) ∙ e)

  Waits-before : (w : Worker) (errno : ℕ) → Waits (woken_worker k w errno).0 → Waits w
  Waits-before looking errno w = w
  Waits-before found_nothing errno w = w
  Waits-before calling errno w = w
  Waits-before asleep errno w = tt

  Step-Inv : {n : ℕ} {t u : State} → Step k n t u → Inv n t → Inv n u
  Step-Inv {t} (publish i lt e) inv = record {
    noted = λ w s. inr (Some-new t.thread Before i loading lt tt);
    told = λ a ne. Some-kept t.thread (λ c. c ≡ waking) i loading (λ f. cc (e, f)) (inv.told a ne);
  }
  Step-Inv {t} (load_set i lt e ne) inv = record {
    noted = λ w s. inl ne;
    told = λ a ne. Some-kept t.thread (λ c. c ≡ waking) i idle (λ f. cc (e, f)) (inv.told a ne);
  }
  Step-Inv {t} (load_clear i lt e z) inv = record {
    noted = λ w s. inr (Some-new t.thread Before i exchanging lt tt);
    told = λ a ne. absurd (ne z);
  }
  Step-Inv {t} (exchange_set i lt e ne) inv = record {
    noted = λ w s. inl (λ z. omega arith);
    told = λ a _. Some-kept t.thread (λ c. c ≡ waking) i idle (λ f. cc (e, f)) (inv.told a ne);
  }
  Step-Inv {t} (exchange_clear i lt e z) inv = record {
    noted = λ w s. inl (λ z. omega arith);
    told = λ a _. Some-new t.thread (λ c. c ≡ waking) i waking lt refl;
  }
  Step-Inv {t} (wakes i lt e) inv = record {
    noted = λ w s. elim (inv.noted (Waits-before t.worker t.errno w) s) [
      | inl ne ↦ inl ne
      | inr b ↦ inr (Some-kept t.thread Before i idle (not-Before e (λ x. x)) b)
    ];
    told = λ a _. absurd (woken_worker-awake t.worker t.errno a);
  }
  Step-Inv (take m e l) inv = record { noted = inv.noted; told = inv.told }
  Step-Inv (find_nothing e z) inv = record { noted = λ w s. absurd w; told = λ a _. cc a }
  Step-Inv (clear e) inv = record { noted = λ w s. absurd (omega arith); told = λ a _. cc a }
  Step-Inv {t} (sleep e s) inv = record {
    noted = λ w l. inv.noted (subst Waits (sym e) tt) l;
    told = λ a ne. absurd (ne (k.sleeps_only t.word 0 s));
  }
  Step-Inv {t} (fails e w) inv = record {
    noted = λ _ s. inv.noted w s;
    told = λ a _. absurd (after_reply-awake (failed e) t.errno a);
  }

  Run-Inv : {n : ℕ} {errno : ℕ} {t : State} → Run k n (new_bus errno) t → Inv n t
  Run-Inv here = record { noted = λ w s. absurd w; told = λ a _. cc a }
  Run-Inv (later r s) = Step-Inv s (Run-Inv r)

  -- In every state that a worker and `n` threads reach from a new bus, in any interleaving: if the
  -- worker sleeps and something was published after it last stored 0, some thread has not come to
  -- the end of `notify`.
  pub sleeper_is_told :
      {n errno : ℕ} {t : State}
      → Run k n (new_bus errno) t
      → t.worker ≡ asleep
      → 1 ≤ t.since
      → (i : ℕ) × (i < n) × (t.thread i ≢ idle)
  sleeper_is_told {t} r a s =
      let inv = Run-Inv r in
      elim (inv.noted (subst Waits (sym a) tt) s) [
        | inl ne ↦ let (i, lt, e) = inv.told a ne in (i, lt, λ f. cc (e, f))
        | inr (i, lt, b) ↦ (i, lt, λ f. subst Before f b)
      ]

  -- A thread that goes through `notify` to its end is where it was.
  through :
      (f : ℕ → Notifier) (i : ℕ) (c d e : Notifier)
      → f i ≡ idle
      → (j : ℕ) → update (update (update (update f i c) i d) i e) i idle j ≡ f j
  through f i c d e start =
      update_all (λ j s. s ≡ f j) (update (update (update f i c) i d) i e) i idle (sym start)
        (λ j other.
          update_ne (update (update f i c) i d) i e j other
          ∙ update_ne (update f i c) i d j other
          ∙ update_ne f i c j other)

  through_at_once :
      (f : ℕ → Notifier) (i : ℕ) (c : Notifier)
      → f i ≡ idle
      → (j : ℕ) → update (update f i c) i idle j ≡ f j
  through_at_once f i c start =
      update_all (λ j s. s ≡ f j) (update f i c) i idle (sym start)
        (λ j other. update_ne f i c j other)

  -- The worker goes to sleep with what there is.
  falls_asleep :
      {n : ℕ} {s t : State} (messages : ℕ) (f : ℕ → Notifier)
      → Run k n s t
      → t.worker ≡ found_nothing
      → k.Sleeps 0 0
      → t.messages ≡ messages
      → ((j : ℕ) → t.thread j ≡ f j)
      → (u : State) × Run k n s u
        × (u.worker ≡ asleep)
        × (u.word ≡ 0)
        × (u.messages ≡ messages)
        × ((j : ℕ) → u.thread j ≡ f j)
  falls_asleep messages f r e sleeps m same =
      (_, later (later r (clear e)) (sleep refl sleeps), refl, refl, m, same)

  -- A wake-up is lost. With a kernel that puts a thread to sleep on a word of 0 where it expects 0:
  -- whenever the worker has found nothing and not yet stored 0, and a thread is not in `notify`,
  -- there is a run in which that thread publishes something and goes through `notify` to its end,
  -- and after which the worker sleeps on a word of 0 with that in its channels, and no thread
  -- stands elsewhere than before.
  pub lost_wake_up :
      {n : ℕ} {t : State} (i : ℕ)
      → i < n
      → t.worker ≡ found_nothing
      → t.thread i ≡ idle
      → k.Sleeps 0 0
      → (u : State) × Run k n t u
        × (u.worker ≡ asleep)
        × (u.word ≡ 0)
        × (u.messages ≡ t.messages + 1)
        × ((j : ℕ) → u.thread j ≡ t.thread j)
  lost_wake_up {n} {t} i lt e start sleeps = elim (ℕ_discrete t.word 0) [
    | yes z ↦
        falls_asleep (t.messages + 1) t.thread
          (later
            (later
              (later (later here (publish i lt start))
                (load_clear i lt (update_self t.thread i loading) z))
              (exchange_clear i lt (update_self (update t.thread i loading) i exchanging) z))
            (wakes i lt (update_self (update (update t.thread i loading) i exchanging) i waking)))
          (ap (λ w. (woken_worker k w t.errno).0) e) sleeps refl
          (through t.thread i loading exchanging waking start)
    | no ne ↦
        falls_asleep (t.messages + 1) t.thread
          (later (later here (publish i lt start))
            (load_set i lt (update_self t.thread i loading) ne))
          e sleeps refl (through_at_once t.thread i loading start)
  ]
