-- ===== src/Spsc/Threads/Inv.antt =====
-- The invariant of a ring with one producer and one consumer, at every step of their calls.
use libni.Base.{
  ℕ, ◌<◌, ◌≡◌, ◌≢◌, refl, sym, ap, subst, ◌∙◌, set, arith, List, [], ◌∷◌, ◌++◌, append_assoc,
  length, update, dec_lt, get_or,
}
use mathlib.Core.Path.{subst₂}
use libni.Spsc.Ring.{Slot, Ring, slot_at}
use libni.Spsc.Ring.Inv.{Holds, read_slot, write_taken}
use libni.Spsc.Ring.Refine.{pushed-Holds, popped-Holds}
use libni.Spsc.Threads.{
  Pushing, found_room, stored, Popping, found, cleared, System, next_index, Step, check_room,
  refuse, store_slot, advance_write, find_nothing, find, clear_slot, advance_read, Reach, start,
  later,
}

module _ {A : Type 0} ⦃s : Slot A⦄ where
  -- The indices as they will be once the calls under way have moved them on.
  abbrev pub write_after : ℕ → ℕ → Pushing A → ℕ
  write_after i mask (stored _) = next_index i mask
  write_after i mask _ = i

  abbrev pub read_after : ℕ → ℕ → Popping A → ℕ
  read_after i mask (cleared _) = next_index i mask
  read_after i mask _ = i

  abbrev pub settled : Ring A → Pushing A → Popping A → Ring A
  settled r p c = record r {
    write_index = write_after r.write_index r.mask p;
    read_index = read_after r.read_index r.mask c;
  }

  -- What a call under way knows of the queue `q`.
  abbrev pub PushSound : ℕ → List A → Pushing A → Type 0
  PushSound size q (found_room x) = length q < size
  PushSound size q _ = Unit

  abbrev pub PopSound : List A → Popping A → Type 0
  PopSound q (found x) = (rest : List A) × (q ≡ x ∷ rest)
  PopSound q _ = Unit

  -- The elements stored are those taken out, in the same order, and then those of the queue `q`.
  pub record Inv (r : Ring A) (p : Pushing A) (c : Popping A) (given taken q : List A)
      : Type 0 where
    pub holds : Holds (settled r p c) q
    pub fifo : given ≡ taken ++ q
    pub pushing : PushSound r.size q p
    pub popping : PopSound q c

  module _ {r : Ring A} {given taken q : List A} where
    push_check :
        {p : Pushing A} {c : Popping A} (x : A)
        → p ≡ Pushing.idle
        → slot_at r r.write_index ≡ s.empty
        → Inv r p c given taken q
        → Inv r (found_room x) c given taken q
    push_check {c} x e free inv = record {
      holds = h;
      fifo = inv.fifo;
      pushing = has_room;
      popping = inv.popping;
    }
      where
        h : Holds (settled r (found_room x) c) q
        h = subst (λ p. Holds (settled r p c) q) e inv.holds

        has_room : length q < r.size
        has_room = elim (dec_lt (length q) r.size) [
          | yes lt ↦ lt
          | no n ↦ absurd (write_taken h (omega (arith, h.room)) free)
        ]

    push_store :
        {p : Pushing A} {c : Popping A} (x : A)
        → p ≡ found_room x
        → x ≢ s.empty
        → Inv r p c given taken q
        → Inv
            (record r { buf = set r.buf r.write_index x })
            (stored x)
            c
            (given ++ (x ∷ []))
            taken
            (q ++ (x ∷ []))
    push_store {c} x e ne inv = record {
      holds = pushed-Holds x now.holds ne now.pushing;
      fifo = ap (λ (l : List A). l ++ (x ∷ [])) now.fifo ∙ append_assoc taken q (x ∷ []);
      pushing = tt;
      popping = PopSound-append c now.popping;
    }
      where
        now : Inv r (found_room x) c given taken q
        now = subst (λ p. Inv r p c given taken q) e inv

        PopSound-append : (c : Popping A) → PopSound q c → PopSound (q ++ (x ∷ [])) c
        PopSound-append Popping.idle h = tt
        PopSound-append (found y) (rest, e) =
            (rest ++ (x ∷ []), ap (λ (l : List A). l ++ (x ∷ [])) e)
        PopSound-append (cleared y) h = tt

    push_advance :
        {p : Pushing A} {c : Popping A} (x : A)
        → p ≡ stored x
        → Inv r p c given taken q
        → Inv
            (record r { write_index = next_index r.write_index r.mask })
            Pushing.idle
            c
            given
            taken
            q
    push_advance {c} x e inv = record {
      holds = subst (λ p. Holds (settled r p c) q) e inv.holds;
      fifo = inv.fifo;
      pushing = tt;
      popping = inv.popping;
    }

    pop_find :
        {p : Pushing A} {c : Popping A}
        → c ≡ Popping.idle
        → slot_at r r.read_index ≢ s.empty
        → Inv r p c given taken q
        → Inv r p (found (slot_at r r.read_index)) given taken q
    pop_find {p} e ne inv = record {
      holds = h;
      fifo = inv.fifo;
      pushing = inv.pushing;
      popping = head_of q (read_slot h);
    }
      where
        h : Holds (settled r p Popping.idle) q
        h = subst (λ c. Holds (settled r p c) q) e inv.holds

        head_of :
            (l : List A)
            → slot_at r r.read_index ≡ get_or l 0 s.empty
            → (rest : List A) × (l ≡ slot_at r r.read_index ∷ rest)
        head_of [] g = absurd (ne g)
        head_of (y ∷ l) g = (l, ap (λ (z : A). z ∷ l) (sym g))

    pop_advance :
        {p : Pushing A} {c : Popping A} (x : A)
        → c ≡ cleared x
        → Inv r p c given taken q
        → Inv
            (record r { read_index = next_index r.read_index r.mask })
            p
            Popping.idle
            given
            taken
            q
    pop_advance {p} x e inv = record {
      holds = subst (λ c. Holds (settled r p c) q) e inv.holds;
      fifo = inv.fifo;
      pushing = inv.pushing;
      popping = tt;
    }

  -- The queue loses its head `x`.
  pop_clear :
      {r : Ring A} {given taken q : List A} {p : Pushing A} {c : Popping A} (x : A)
      → c ≡ found x
      → Inv r p c given taken q
      → (rest : List A) × Inv
          (record r { buf = set r.buf r.read_index s.empty })
          p
          (cleared x)
          given
          (taken ++ (x ∷ []))
          rest
  pop_clear {r} {given} {taken} {q} {p} x e inv = (
    rest,
    record {
      holds = popped-Holds x now.holds;
      fifo = now.fifo ∙ sym (append_assoc taken (x ∷ []) rest);
      pushing = fewer p now.pushing;
      popping = tt;
    },
  )
    where
      head : (rest : List A) × (q ≡ x ∷ rest)
      head = subst (PopSound q) e inv.popping

      rest : List A
      rest = head.0

      now : Inv r p (found x) given taken (x ∷ rest)
      now = subst₂ (λ c l. Inv r p c given taken l) e head.1 inv

      fewer : (p : Pushing A) → PushSound r.size (x ∷ rest) p → PushSound r.size rest p
      fewer Pushing.idle h = tt
      fewer (found_room y) h = omega (arith, h)
      fewer (stored y) h = tt

  -- The invariant of a state: the call of the only producer, that of the consumer, and some queue.
  abbrev pub StateInv : System A → Type 0
  StateInv t = (q : List A) × Inv t.ring (t.producer 0) t.consumer t.given t.taken q

  only_producer : (f : ℕ → Pushing A) (i : ℕ) (p : Pushing A) → i < 1 → update f i p 0 ≡ p
  only_producer f i p lt = ground arith

  producer_of : (f : ℕ → Pushing A) {i : ℕ} {p : Pushing A} → i < 1 → f i ≡ p → f 0 ≡ p
  producer_of f {i} lt e = ap f zeroth ∙ e
    where
      zeroth : 0 ≡ i
      zeroth = omega arith

  -- No element of the list is `Empty`.
  unfoldable pub NoneEmpty : List A → Type 0
  NoneEmpty [] = Unit
  NoneEmpty (x ∷ l) = (x ≢ s.empty) × NoneEmpty l

  NoneEmpty-append : (l : List A) (x : A) → NoneEmpty (l ++ (x ∷ [])) → NoneEmpty l × (x ≢ s.empty)
  unfolding NoneEmpty
  NoneEmpty-append [] x ne = (tt, ne.0)
  NoneEmpty-append (y ∷ l) x ne =
      let (before, last) = NoneEmpty-append l x ne.1 in ((ne.0, before), last)

  -- What was given before a step, if what is given after it is not `Empty`.
  given_before : {t u : System A} → Step 1 t u → NoneEmpty u.given → NoneEmpty t.given
  given_before (check_room i x lt e free) ne = ne
  given_before (refuse i lt e full) ne = ne
  given_before {t} (store_slot i x lt e) ne = (NoneEmpty-append t.given x ne).0
  given_before (advance_write i x lt e) ne = ne
  given_before (find_nothing e none) ne = ne
  given_before (find e full) ne = ne
  given_before (clear_slot x e) ne = ne
  given_before (advance_read x e) ne = ne

  Step-StateInv : {t u : System A} → Step 1 t u → NoneEmpty u.given → StateInv t → StateInv u
  Step-StateInv {t} (check_room i x lt e free) given (q, inv) = (
    q,
    rw (only_producer t.producer i (found_room x) lt)
        (push_check x (producer_of t.producer lt e) free inv),
  )
  Step-StateInv (refuse i lt e full) given inv = inv
  Step-StateInv {t} (store_slot i x lt e) given (q, inv) = (
    q ++ (x ∷ []),
    rw (only_producer t.producer i (stored x) lt)
        (push_store x (producer_of t.producer lt e) (NoneEmpty-append t.given x given).1 inv),
  )
  Step-StateInv {t} (advance_write i x lt e) given (q, inv) = (
    q,
    rw (only_producer t.producer i Pushing.idle lt)
        (push_advance x (producer_of t.producer lt e) inv),
  )
  Step-StateInv (find_nothing e none) given inv = inv
  Step-StateInv (find e ne) given (q, inv) = (q, pop_find e ne inv)
  Step-StateInv (clear_slot x e) given (q, inv) = pop_clear x e inv
  Step-StateInv (advance_read x e) given (q, inv) = (q, pop_advance x e inv)

  pub Reach-StateInv :
      {r : Ring A} {t : System A} → Holds r [] → Reach 1 r t → NoneEmpty t.given → StateInv t
  Reach-StateInv h start given = ([], record { holds = h; fifo = refl; pushing = tt; popping = tt })
  Reach-StateInv h (later run step) given =
      Step-StateInv step given (Reach-StateInv h run (given_before step given))
