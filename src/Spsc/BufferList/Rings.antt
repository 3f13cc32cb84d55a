-- ===== src/Spsc/BufferList/Rings.antt =====
-- The rings of an SPSCBufferList, from that which is read to that which is written.
use libni.Base.{
  ℕ, ◌≡◌, ◌≢◌, refl, sym, ap, subst, ◌∙◌, Bool, true, false, List, [], ◌∷◌, ◌++◌, Option, some,
  update, update_self, update_ne, if◌then◌else◌, ℕ_discrete, Bool-cases, inl, inr, length, ltb,
}
use libni.Spsc.Ring
use libni.Spsc.Ring.{Slot, Ring, pointer_slot}
use libni.Spsc.Ring.Inv.{Holds}
use libni.Spsc.Ring.Refine.{push_refines, queries_refine}
use libni.Spsc.Queue

-- The address of the last buffer, of `a` and those in use.
unfoldable pub last_buffer : ℕ → List (ℕ × ℕ) → ℕ
last_buffer a [] = a
last_buffer a (u ∷ us) = last_buffer u.1 us

-- `a` is no buffer in use.
unfoldable pub Other : ℕ → List (ℕ × ℕ) → Type 0
Other a [] = Unit
Other a (u ∷ us) = (a ≢ u.1) × Other a us

pub Other-last : (a : ℕ) (u : ℕ × ℕ) (us : List (ℕ × ℕ)) → Other a (u ∷ us) → a ≢ last_buffer u.1 us
unfolding Other last_buffer
Other-last a u [] (ne, others) = ne
Other-last a u (v ∷ us) (ne, others) = Other-last a v us others

Other-append :
    (a : ℕ) (us : List (ℕ × ℕ)) (u : ℕ × ℕ) → Other a us → a ≢ u.1 → Other a (us ++ (u ∷ []))
unfolding Other
Other-append a [] u others ne = (ne, tt)
Other-append a (v ∷ us) u others ne = (others.0, Other-append a us u others.1 ne)

pub last_buffer-append :
    (a : ℕ) (us : List (ℕ × ℕ)) (u : ℕ × ℕ) → last_buffer a (us ++ (u ∷ [])) ≡ u.1
unfolding last_buffer
last_buffer-append a [] u = refl
last_buffer-append a (v ∷ us) u = last_buffer-append v.1 us u

module _ {A : Type 0} ⦃s : Slot A⦄ where
  -- There is a ring at `a`, and it is not empty.
  abbrev pub Filled : (ℕ → Option (Ring A)) → ℕ → Type 0
  Filled h a = (n : Ring A) × (h a ≡ some n) × (Ring.empty n ≡ false)

  pub empty_no : {r : Ring A} {q : List A} → Holds r q → q ≢ [] → Ring.empty r ≡ false
  empty_no {r} h ne = elim (Bool-cases (Ring.empty r)) [
    | inl e ↦ absurd (ne ((queries_refine h).0.0 e))
    | inr e ↦ e
  ]

  append_one_ne : (q : List A) (x : A) → q ++ (x ∷ []) ≢ []
  append_one_ne [] x e = cc e
  append_one_ne (y ∷ q) x e = cc e

  -- The rings at `a` and at the buffers in use hold `q` together, oldest first; they are different
  -- rings, and none after the first is empty.
  unfoldable pub Rings : (ℕ → Option (Ring A)) → ℕ → List (ℕ × ℕ) → List A → Type 0
  Rings h a [] q = (r : Ring A) × (h a ≡ some r) × Holds r q
  Rings h a (u ∷ us) q =
      (r : Ring A) × (xs : List A) × (y : A) × (ys : List A) × (h a ≡ some r)
      × Holds r xs
      × (q ≡ xs ++ (y ∷ ys))
      × (u.1 ≢ 0)
      × Other a (u ∷ us)
      × Filled h u.1
      × Rings h u.1 us (y ∷ ys)

  pub Rings-update :
      (h : ℕ → Option (Ring A)) (b : ℕ) (v : Option (Ring A)) (a : ℕ) (us : List (ℕ × ℕ))
      (q : List A)
      → b ≢ a
      → Other b us
      → Rings h a us q
      → Rings (update h b v) a us q
  unfolding Rings Other
  Rings-update h b v a [] q ne others (r, here, holds) = (r, update_ne h b v a ne ∙ here, holds)
  Rings-update h b v a (u ∷ us) q ne others
        (r, xs, y, ys, here, holds, parts, full, apart, filled, rest) =
      (
        r,
        xs,
        y,
        ys,
        update_ne h b v a ne ∙ here,
        holds,
        parts,
        full,
        apart,
        (filled.0, update_ne h b v u.1 others.0 ∙ filled.1, filled.2),
        Rings-update h b v u.1 us (y ∷ ys) others.0 others.1 rest,
      )

  -- The ring at the end.
  pub last_ring :
      (h : ℕ → Option (Ring A)) (a : ℕ) (us : List (ℕ × ℕ)) (q : List A)
      → Rings h a us q
      → (r : Ring A) × (zs : List A) × (h (last_buffer a us) ≡ some r) × Holds r zs
  unfolding Rings last_buffer
  last_ring h a [] q (r, here, holds) = (r, q, here, holds)
  last_ring h a (u ∷ us) q (r, xs, y, ys, here, holds, parts, full, apart, filled, rest) =
      last_ring h u.1 us (y ∷ ys) rest

  append_assoc :
      (xs : List A) (y : A) (ys zs : List A) → (xs ++ (y ∷ ys)) ++ zs ≡ xs ++ (y ∷ (ys ++ zs))
  append_assoc [] y ys zs = refl
  append_assoc (x ∷ xs) y ys zs = ap (λ t. x ∷ t) (append_assoc xs y ys zs)

  pub pushed_more :
      {q : List A} {r : Ring A} (x : A)
      → Holds r q
      → x ≢ s.empty
      → Ring.available r ≡ true
      → Holds (Ring.push x r).1 (q ++ (x ∷ []))
  unfolding Queue.push
  pushed_more {q} {r} x h ne room =
      let fits : ltb (length q) r.size ≡ true = sym (queries_refine h).1 ∙ room in
      subst (Holds (Ring.push x r).1)
        (ap (λ c. (if◌then◌else◌ {A = Bool × List A} c (true, q ++ (x ∷ [])) (false, q)).1) fits)
        (push_refines x h ne).1

  Filled-update :
      (h : ℕ → Option (Ring A)) (b a : ℕ) (r : Ring A)
      → Filled h a
      → Ring.empty r ≡ false
      → Filled (update h b (some r)) a
  Filled-update h b a r (n, at, full) new = elim (ℕ_discrete b a) [
    | yes e ↦ (r, ap (update h b (some r)) (sym e) ∙ update_self h b (some r), new)
    | no ne ↦ (n, update_ne h b (some r) a ne ∙ at, full)
  ]

  -- An element more in the last ring, which has room.
  pub Rings-pushed :
      (h : ℕ → Option (Ring A)) (a : ℕ) (us : List (ℕ × ℕ)) (q : List A) (x : A) (r : Ring A)
      → x ≢ s.empty
      → Rings h a us q
      → h (last_buffer a us) ≡ some r
      → Ring.available r ≡ true
      → Rings (update h (last_buffer a us) (some (Ring.push x r).1)) a us (q ++ (x ∷ []))
  unfolding Rings last_buffer
  Rings-pushed h a [] q x r ne (t, here, holds) last room = (
    _,
    update_self h a _,
    subst (λ l. Holds (Ring.push x l).1 (q ++ (x ∷ []))) same
        (pushed_more x holds ne (ap Ring.available same ∙ room)),
  )
    where
      same : t ≡ r
      same = cc (here, last)
  Rings-pushed h a (u ∷ us) q x r ne (t, xs, y, ys, here, holds, parts, full, apart, filled, rest)
        last room =
      (
        t,
        xs,
        y,
        ys ++ (x ∷ []),
        update_ne h (last_buffer u.1 us) _ a (λ e. Other-last a u us apart (sym e)) ∙ here,
        holds,
        ap (λ l. l ++ (x ∷ [])) parts ∙ append_assoc xs y ys (x ∷ []),
        full,
        apart,
        filled_on,
        Rings-pushed h u.1 us (y ∷ ys) x r ne rest last room,
      )
    where
      filled_on : Filled (update h (last_buffer u.1 us) (some (Ring.push x r).1)) u.1
      filled_on =
          let (c, zs, at, held) = last_ring h u.1 us (y ∷ ys) rest in
          let same : c ≡ r = cc (at, last) in
          Filled-update h (last_buffer u.1 us) u.1 (Ring.push x r).1 filled (
            empty_no (pushed_more x (subst (λ l. Holds l zs) same held) ne room)
              (append_one_ne zs x))

  -- A ring more, with one element.
  pub Rings-added :
      (h : ℕ → Option (Ring A)) (a : ℕ) (us : List (ℕ × ℕ)) (q : List A) (x : A) (n c : ℕ)
      (r : Ring A)
      → Rings h a us q
      → c ≢ 0
      → c ≢ a
      → Other c us
      → h c ≡ some r
      → Holds r (x ∷ [])
      → Rings h a (us ++ ((n, c) ∷ [])) (q ++ (x ∷ []))
  unfolding Rings Other
  Rings-added h a [] q x n c r (t, here, holds) full ne others there one = (
    t,
    q,
    x,
    [],
    here,
    holds,
    refl,
    full,
    (λ e. ne (sym e), tt),
    (r, there, empty_no one (λ e. cc e)),
    (r, there, one),
  )
  Rings-added h a (u ∷ us) q x n c r
        (t, xs, y, ys, here, holds, parts, nonzero, apart, filled, rest) full ne others there one =
      (
        t,
        xs,
        y,
        ys ++ (x ∷ []),
        here,
        holds,
        ap (λ l. l ++ (x ∷ [])) parts ∙ append_assoc xs y ys (x ∷ []),
        nonzero,
        Other-append a (u ∷ us) (n, c) apart (λ e. ne (sym e)),
        filled,
        Rings-added h u.1 us (y ∷ ys) x n c r rest full others.0 others.1 there one,
      )
