-- ===== src/Logging/MessageBus/Threads.antt =====
-- MessageBus::notify and MessageBus::wait of src/logging/message_bus.cc, called at the same time:
-- the worker of LogWorker::run, and threads that log (Logger::log) or stop it (LogWorker::stop),
-- interleaved in any order.
pub mod Wake
use libni.Base.{ℕ, suc, ◌+◌, ◌<◌, ◌≡◌, ◌≢◌, Bool, true, false, update, ◌==◌, if◌then◌else◌}
use libni.Sync.Futex.{Reply, woken, failed, Kernel, wake}
use libni.Logging.MessageBus.Wait.{turn}

-- The worker: in its loop; past the last look before `wait`; at its system call; asleep in it.
pub data Worker : Type 0 where
  looking : Worker
  found_nothing : Worker
  calling : Worker
  asleep : Worker

-- A thread that has something for the worker: before `load`, before `exchange`, before `wake`.
pub data Notifier : Type 0 where
  idle : Notifier
  loading : Notifier
  exchanging : Notifier
  waking : Notifier

-- `word` is `m_futex`, `messages` what the worker has yet to see, and `since` how much of it came
-- after the worker last stored 0 in `word`, as if it had taken none since. `errno` is that of the
-- worker.
pub record State : Type 0 where
  pub word : ℕ
  pub messages : ℕ
  pub since : ℕ
  pub errno : ℕ
  pub worker : Worker
  pub thread : ℕ → Notifier

-- The end of a system call: one turn of the loop in `wait`.
abbrev pub after_reply : Reply → (errno : ℕ) → Worker × ℕ
after_reply reply errno =
    let (again, errno') = turn reply errno in (if again then calling else looking, errno')

-- `FUTEX_WAKE` of one thread: the worker, if it sleeps.
abbrev pub woken_worker : Kernel → Worker → (errno : ℕ) → Worker × ℕ
woken_worker k asleep errno = if wake k 1 1 == 0 then after_reply woken errno else (asleep, errno)
woken_worker k looking errno = (looking, errno)
woken_worker k found_nothing errno = (found_nothing, errno)
woken_worker k calling errno = (calling, errno)

abbrev pub Waits : Worker → Type 0
Waits looking = ⊥
Waits found_nothing = ⊥
Waits calling = Unit
Waits asleep = Unit

module _ (k : Kernel) (n : ℕ) where
  -- One access of one of `n` threads, or of the worker.
  pub data Step (t : State) : State → Type 0 where
    publish :
        (i : ℕ)
        → i < n
        → t.thread i ≡ idle
        → Step t (record t {
          messages = t.messages + 1;
          since = t.since + 1;
          thread = update t.thread i loading;
        })
    load_set :
        (i : ℕ)
        → i < n
        → t.thread i ≡ loading
        → t.word ≢ 0
        → Step t (record t { thread = update t.thread i idle })
    load_clear :
        (i : ℕ)
        → i < n
        → t.thread i ≡ loading
        → t.word ≡ 0
        → Step t (record t { thread = update t.thread i exchanging })
    exchange_set :
        (i : ℕ)
        → i < n
        → t.thread i ≡ exchanging
        → t.word ≢ 0
        → Step t (record t { word = 1; thread = update t.thread i idle })
    exchange_clear :
        (i : ℕ)
        → i < n
        → t.thread i ≡ exchanging
        → t.word ≡ 0
        → Step t (record t { word = 1; thread = update t.thread i waking })
    wakes :
        (i : ℕ)
        → i < n
        → t.thread i ≡ waking
        → Step t (record t {
          worker = (woken_worker k t.worker t.errno).0;
          errno = (woken_worker k t.worker t.errno).1;
          thread = update t.thread i idle;
        })
    take : (m : ℕ) → t.worker ≡ looking → t.messages ≡ suc m → Step t (record t { messages = m })
    find_nothing :
        t.worker ≡ looking → t.messages ≡ 0 → Step t (record t { worker = found_nothing })
    clear : t.worker ≡ found_nothing → Step t (record t { word = 0; since = 0; worker = calling })
    sleep : t.worker ≡ calling → k.Sleeps t.word 0 → Step t (record t { worker = asleep })
    -- The call ends with an error: the word is not 0, or a signal came.
    fails :
        (e : ℕ)
        → Waits t.worker
        → Step t (record t {
          worker = (after_reply (failed e) t.errno).0;
          errno = (after_reply (failed e) t.errno).1;
        })

  pub data Run (t : State) : State → Type 0 where
    here : Run t t
    later : {u v : State} → Run t u → Step u v → Run t v

-- A new bus, and its worker.
abbrev pub new_bus : (errno : ℕ) → State
new_bus errno = record {
  word = 0;
  messages = 0;
  since = 0;
  errno = errno;
  worker = looking;
  thread = λ _. idle;
}
