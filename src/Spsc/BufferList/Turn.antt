-- ===== src/Spsc/BufferList/Turn.antt =====
-- The steps of method pop of SPSCBufferList, each by what it finds in the ring that is read.
use mathlib.Core.Bool.{false≢true}
use libni.Base.{
  ℕ, ◌≡◌, ◌≢◌, refl, sym, ap, subst, ◌∙◌, Bool, true, false, ◌&&◌, List, [], ◌∷◌, ◌++◌, Option,
  none, some, ◌>>=◌, update, update_self, update_ne, ==_ne, ==_eq, if◌then◌else◌, if_true, if_false,
}
use libni.Spsc.Ring
use libni.Spsc.Ring.{Slot, Ring, pointer_slot}
use libni.Spsc.Ring.Inv.{Holds}
use libni.Spsc.Ring.Refine.{pop_refines, queries_refine}
use libni.Spsc.Queue
use libni.Spsc.LinkedList
use libni.Spsc.LinkedList.{LinkedList}
use libni.Spsc.BufferList.{BufferList, next_to_read, release, pop_read, advance, pop}
use libni.Spsc.BufferList.Rings.{Other, Rings, Rings-update}
use libni.Spsc.BufferList.Laws.{Stores}

pub and_true : (c : Bool) → (c && true) ≡ c
and_true true = refl
and_true false = refl

pub and_false : (c : Bool) → (c && false) ≡ false
and_false true = refl
and_false false = refl

pub some_left : {A : Type 0} (xs : List A) (y : A) (ys : List A) → xs ++ (y ∷ ys) ≢ []
some_left [] y ys e = cc e
some_left (x ∷ xs) y ys e = cc e

module _ {A : Type 0} ⦃s : Slot A⦄ where
  -- The list after its first ring was popped.
  abbrev read_on : BufferList A → Ring A → BufferList A
  read_on b r = record b { buffers = update b.buffers b.m_buf_to_read (some (Ring.pop r).1) }

  read_opens :
      (b : BufferList A) (r : Ring A)
      → b.buffers b.m_buf_to_read ≡ some r
      → pop_read b ≡ some ((Ring.pop r).0, read_on b r)
  unfolding pop_read
  read_opens b r here = ap (λ o. o >>= (λ t. some ((Ring.pop t).0, read_on b t))) here

  module _ {b : BufferList A} {nodes spare : List ℕ} {us : List (ℕ × ℕ)} {q : List A}
      (h : Stores b nodes spare us q) (r : Ring A) (here : b.buffers b.m_buf_to_read ≡ some r) where
    pub pop_here : Ring.empty r ≡ false → pop b ≡ pop_read b
    unfolding pop pop_read
    pop_here full = rw (pop, here, full) refl

    pub read_here : (x : A) (xs : List A) → Holds r (x ∷ xs) → pop_read b ≡ some (x, read_on b r)
    unfolding Queue.pop
    read_here x xs holds =
        let (answer, after) = pop_refines holds in
        read_opens b r here ∙ ap (λ c. some (c, read_on b r)) answer

    pub pop_nothing :
        Ring.empty r ≡ true → b.m_buf_to_read ≡ b.m_buf_to_write → pop b ≡ some (s.empty, b)
    unfolding pop
    pop_nothing bare same = rw (pop, here, bare) (if_true _ (==_eq _ _ same))

    -- The list after the first ring was released.
    abbrev pub advanced : LinkedList ℕ → ℕ → BufferList A
    advanced l a = record b {
      m_buf_to_read = a;
      m_in_use = l;
      m_cache = (Ring.push b.m_buf_to_read b.m_cache).1;
      buffers =
          update b.buffers b.m_buf_to_read
            (if (Ring.push b.m_buf_to_read b.m_cache).0 then some (Ring.reset r) else none);
    }

    release_opens :
        (l : LinkedList ℕ)
        → release b.m_buf_to_read (record b { m_in_use = l })
          ≡ some (record (advanced l b.m_buf_to_read) { m_in_use = l })
    unfolding release
    release_opens l =
        ap
          (λ o. o >>= (λ t. some (record b {
            m_in_use = l;
            m_cache = (Ring.push b.m_buf_to_read b.m_cache).1;
            buffers =
                update b.buffers b.m_buf_to_read
                  (if (Ring.push b.m_buf_to_read b.m_cache).0 then some (Ring.reset t) else none);
          })))
          here

    pub advance_opens :
        (l : LinkedList ℕ) (a : ℕ)
        → a ≢ 0
        → LinkedList.pop b.m_in_use ≡ some (some a, l)
        → advance b ≡ some (advanced l a)
    unfolding advance next_to_read release
    advance_opens l a ne pops =
        rw (advance, next_to_read, pops, ◌>>=◌)
          (if_false _ (==_ne a 0 ne)
            ∙ ap
                (λ (o : Option (BufferList A)).
                  o >>= (λ (e : BufferList A). some (record e { m_buf_to_read = a })))
                (release_opens l))

    pub pop_advances :
        (e : BufferList A)
        → Ring.empty r ≡ true
        → b.m_buf_to_read ≢ b.m_buf_to_write
        → advance b ≡ some e
        → pop b ≡ pop_read e
    unfolding pop
    pop_advances e bare other advances =
        rw (pop, here, bare) (if_false _ (==_ne _ _ other) ∙ ap (λ o. o >>= pop_read) advances)

  -- What is left in the ring that is read, and in those behind it.
  pub popped_rings :
      (f : ℕ → Option (Ring A)) (a : ℕ) (us : List (ℕ × ℕ)) (r : Ring A) (x : A) (q : List A)
      → Rings f a us (x ∷ q)
      → f a ≡ some r
      → Ring.empty r ≡ false
      → (xs : List A) × Holds r (x ∷ xs) × Rings (update f a (some (Ring.pop r).1)) a us q
  unfolding Rings Other Queue.pop
  popped_rings f a [] r x q (t, here, holds) at full =
      let same : t ≡ r = cc (here, at) in
      let held = subst (λ c. Holds c (x ∷ q)) same holds in
      (q, held, (_, update_self f a _, (pop_refines held).1))
  popped_rings f a (u ∷ us) r x q (t, [], y, ys, here, holds, parts, nonzero, apart, filled, rest)
        at full =
      let same : t ≡ r = cc (here, at) in
      absurd
        (false≢true (sym full ∙ (queries_refine (subst (λ c. Holds c []) same holds)).0.1 refl))
  popped_rings f a (u ∷ us) r x q
        (t, z ∷ xs, y, ys, here, holds, parts, nonzero, apart, filled, rest) at full =
      let same : t ≡ r = cc (here, at) in
      let held = subst (λ c. Holds c (z ∷ xs)) same holds in
      let front : x ≡ z = cc parts in
      let back : q ≡ xs ++ (y ∷ ys) = cc parts in
      (
        xs,
        subst (λ c. Holds r (c ∷ xs)) (sym front) held,
        (
          _,
          xs,
          y,
          ys,
          update_self f a _,
          (pop_refines held).1,
          back,
          nonzero,
          apart,
          (filled.0, update_ne f a _ u.1 apart.0 ∙ filled.1, filled.2),
          Rings-update f a _ u.1 us (y ∷ ys) apart.0 apart.1 rest,
        ),
      )
