-- ===== src/Chain/Among.antt =====
-- The addresses of a chain.
use mathlib.Core.Option.{some-injective}
use libni.Base.{
  ℕ, suc, ◌≤◌, ◌≡◌, ◌≢◌, ◌⊎◌, inl, inr, refl, sym, ap, subst, arith, ◌∙◌, List, [], ◌∷◌, ◌++◌,
  length, Option, some,
}
use libni.Chain.{Apart, last_address, Chain}

module _ {A : Type 0} where
  -- `a` is the address of a node of the chain that starts at `h`.
  unfoldable pub Among : ℕ → ℕ → List (ℕ × A) → Type 0
  Among a h [] = a ≡ h
  Among a h (e ∷ q) = (a ≡ h) ⊎ Among a e.0 q

  pub Among-head : (h : ℕ) (q : List (ℕ × A)) → Among h h q
  unfolding Among
  Among-head h [] = refl
  Among-head h (e ∷ q) = inl refl

  pub Among-append :
      (a h : ℕ) (q : List (ℕ × A)) (e : ℕ × A) → Among a h q → Among a h (q ++ (e ∷ []))
  unfolding Among
  Among-append a h [] e m = inl m
  Among-append a h (d ∷ q) e (inl m) = inl m
  Among-append a h (d ∷ q) e (inr m) = inr (Among-append a d.0 q e m)

  pub Among-new : (h : ℕ) (q : List (ℕ × A)) (e : ℕ × A) → Among e.0 h (q ++ (e ∷ []))
  unfolding Among
  Among-new h [] e = inr refl
  Among-new h (d ∷ q) e = inr (Among-new d.0 q e)

  pub Among-apart : (p a h : ℕ) (q : List (ℕ × A)) → p ≢ h → Apart p q → Among a h q → p ≢ a
  unfolding Among Apart
  Among-apart p a h [] ne ns m = λ e. ne (e ∙ m)
  Among-apart p a h (d ∷ q) ne ns (inl m) = λ e. ne (e ∙ m)
  Among-apart p a h (d ∷ q) ne ns (inr m) = Among-apart p a d.0 q ns.0 ns.1 m

module _ {A N : Type 0} (element : N → A) (next : N → ℕ) where
  -- A node of a chain stands, leads nowhere only at the end, and else leads to a node of the chain.
  pub Among-node :
      (heap : ℕ → Option N) (a h : ℕ) (x : A) (q : List (ℕ × A))
      → Chain element next heap h x q
      → Among a h q
      → (n : N) × (heap a ≡ some n)
        × ((next n ≡ 0 → a ≡ last_address h q))
        × (next n ≢ 0 → Among (next n) h q)
  unfolding Chain Among last_address
  Among-node heap a h x [] c m = (c.0, ap heap m ∙ c.1, λ z. m, λ ne. absurd (ne c.3))
  Among-node heap a h x (e ∷ q) c (inl m) = (
    c.0,
    ap heap m ∙ c.1,
    λ z. absurd (c.4 (sym c.3 ∙ z)),
    λ ne. inr (Among-at e.0 q (next c.0) c.3),
  )
    where
      Among-at : (h : ℕ) (q : List (ℕ × A)) (a : ℕ) → a ≡ h → Among a h q
      Among-at h [] a e = e
      Among-at h (d ∷ q) a e = inl e
  Among-node heap a h x (e ∷ q) c (inr m) =
      let (n, here, ends, leads) = Among-node heap a e.0 e.1 q c.6 m in
      (n, here, ends, λ ne. inr (leads ne))

module _ {A : Type 0} where
  -- `a` is the address of a node of the chain that has `k` nodes behind it.
  unfoldable pub Ahead : (k a h : ℕ) → List (ℕ × A) → Type 0
  Ahead k a h [] = (a ≡ h) × (k ≡ 0)
  Ahead k a h (e ∷ q) = ((a ≡ h) × (k ≡ suc (length q))) ⊎ Ahead k a e.0 q

  pub Among-Ahead :
      (a h : ℕ) (q : List (ℕ × A)) → Among a h q → (k : ℕ) × (k ≤ length q) × Ahead k a h q
  unfolding Among Ahead
  Among-Ahead a h [] m = (0, omega arith, (m, refl))
  Among-Ahead a h (e ∷ q) (inl m) = (suc (length q), omega arith, inl (m, refl))
  Among-Ahead a h (e ∷ q) (inr m) =
      let (k, le, l) = Among-Ahead a e.0 q m in (k, omega arith, inr l)

  Ahead-first : (h : ℕ) (q : List (ℕ × A)) → Ahead (length q) h h q
  unfolding Ahead
  Ahead-first h [] = (refl, refl)
  Ahead-first h (e ∷ q) = inl (refl, refl)

module _ {A N : Type 0} (element : N → A) (next : N → ℕ) where
  -- The node to which it leads has one node less behind it.
  pub Ahead-next :
      (heap : ℕ → Option N) (k a h : ℕ) (x : A) (q : List (ℕ × A)) (n : N)
      → Chain element next heap h x q
      → Ahead k a h q
      → heap a ≡ some n
      → next n ≢ 0
      → (j : ℕ) × (k ≡ suc j) × Ahead j (next n) h q
  unfolding Chain Ahead
  Ahead-next heap k a h x [] n c (m, none_behind) here ne =
      let same : n ≡ c.0 = some-injective _ _ (sym here ∙ ap heap m ∙ c.1) in
      absurd (ne (ap next same ∙ c.3))
  Ahead-next heap k a h x (e ∷ q) n c (inl (m, behind)) here ne =
      let same : n ≡ c.0 = some-injective _ _ (sym here ∙ ap heap m ∙ c.1) in
      (
        length q,
        behind,
        inr (subst (λ b. Ahead (length q) b e.0 q) (sym (ap next same ∙ c.3)) (Ahead-first e.0 q)),
      )
  Ahead-next heap k a h x (e ∷ q) n c (inr l) here ne =
      let (j, less, m) = Ahead-next heap k a e.0 e.1 q n c.6 l here ne in (j, less, inr m)
