-- ===== src/Spsc/Threads.antt =====
-- include/ni/cds/spsc_ring_buffer.hh under threads: `push` and `pop` of SPSCRingBuffer cut at each
-- access of a slot and each update of an index, and interleaved in any order.
-- An index is read by the side that writes it, so that read is one step with the access it serves.
pub mod Inv
pub mod Fifo
pub mod Race
use mathlib.Core.Logic.{ite}
use libni.Base.{
  ℕ, zero, suc, ◌+◌, ◌<◌, ◌≡◌, ◌≢◌, Bool, true, false, List, [], ◌∷◌, ◌++◌, bit_and, set, u64,
  update, ◌==◌, if◌then◌else◌,
}
use libni.Spsc.Ring.{Slot, Ring, slot_at}

-- Where a call of `push` stands.
pub data Pushing (A : Type 0) : Type 0 where
  idle : Pushing A
  found_room : (x : A) → Pushing A
  stored : (x : A) → Pushing A

-- Where a call of `pop` stands.
pub data Popping (A : Type 0) : Type 0 where
  idle : Popping A
  found : (x : A) → Popping A
  cleared : (x : A) → Popping A

-- `given` lists the elements that producers have stored, and `taken` those that the consumer has
-- taken out, oldest first.
pub record System (A : Type 0) : Type 0 where
  pub ring : Ring A
  pub producer : ℕ → Pushing A
  pub consumer : Popping A
  pub given : List A
  pub taken : List A

-- `(index + 1) & m_mask`
abbrev pub next_index : ℕ → ℕ → ℕ
next_index i mask = bit_and (u64 (i + 1)) mask

module _ {A : Type 0} ⦃s : Slot A⦄ where
  -- One access of one thread, with `n` producers. The caller chooses what to push, and when.
  pub data Step (n : ℕ) (t : System A) : System A → Type 0 where
    -- `available()` sees `Empty` under the write index.
    check_room :
        (i : ℕ) (x : A)
        → i < n
        → t.producer i ≡ Pushing.idle
        → slot_at t.ring t.ring.write_index ≡ s.empty
        → Step n t (record t { producer = update t.producer i (found_room x) })
    -- It does not, and `push` returns false.
    refuse :
        (i : ℕ)
        → i < n
        → t.producer i ≡ Pushing.idle
        → slot_at t.ring t.ring.write_index ≢ s.empty
        → Step n t t
    store_slot :
        (i : ℕ) (x : A)
        → i < n
        → t.producer i ≡ found_room x
        → Step n t (record t {
          ring = record (t.ring) { buf = set t.ring.buf t.ring.write_index x };
          producer = update t.producer i (stored x);
          given = t.given ++ (x ∷ []);
        })
    -- `push` returns true.
    advance_write :
        (i : ℕ) (x : A)
        → i < n
        → t.producer i ≡ stored x
        → Step n t (record t {
          ring = record (t.ring) { write_index = next_index t.ring.write_index t.ring.mask };
          producer = update t.producer i Pushing.idle;
        })
    -- `pop` sees `Empty` under the read index and returns it.
    find_nothing :
        t.consumer ≡ Popping.idle → slot_at t.ring t.ring.read_index ≡ s.empty → Step n t t
    find :
        t.consumer ≡ Popping.idle
        → slot_at t.ring t.ring.read_index ≢ s.empty
        → Step n t (record t { consumer = found (slot_at t.ring t.ring.read_index) })
    clear_slot :
        (x : A)
        → t.consumer ≡ found x
        → Step n t (record t {
          ring = record (t.ring) { buf = set t.ring.buf t.ring.read_index s.empty };
          consumer = cleared x;
          taken = t.taken ++ (x ∷ []);
        })
    -- `pop` returns the element.
    advance_read :
        (x : A)
        → t.consumer ≡ cleared x
        → Step n t (record t {
          ring = record (t.ring) { read_index = next_index t.ring.read_index t.ring.mask };
          consumer = Popping.idle;
        })

  abbrev pub start_with : Ring A → System A
  start_with r = record {
    ring = r;
    producer = λ _. Pushing.idle;
    consumer = Popping.idle;
    given = [];
    taken = [];
  }

  pub data Reach (n : ℕ) (r : Ring A) : System A → Type 0 where
    start : Reach n r (start_with r)
    later : {t u : System A} → Reach n r t → Step n t u → Reach n r u
