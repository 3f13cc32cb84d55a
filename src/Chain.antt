-- ===== src/Chain.antt =====
-- Nodes in a heap that lead from one to the next, as the linked queues of include/ni/cds keep them.
-- `element` and `next` say what a node holds and the address to which it leads, 0 for nowhere.
pub mod Among
use mathlib.Core.Option.{some-injective}
use libni.Base.{
  ℕ, ◌≡◌, ◌≢◌, refl, sym, ap, ◌∙◌, List, [], ◌∷◌, ◌++◌, Option, none, some, update, update_self,
  update_ne, fun_ext, ℕ_discrete,
}

module _ {A : Type 0} where
  unfoldable pub Apart : ℕ → List (ℕ × A) → Type 0
  Apart a [] = Unit
  Apart a (e ∷ q) = (a ≢ e.0) × Apart a q

  -- The address of the last node, and of the one before it, of a chain that starts at `a`.
  unfoldable pub last_address : ℕ → List (ℕ × A) → ℕ
  last_address a [] = a
  last_address a (e ∷ q) = last_address e.0 q

  unfoldable pub before_last : ℕ → ℕ × A → List (ℕ × A) → ℕ
  before_last a e [] = a
  before_last a e (f ∷ q) = before_last e.0 f q

  unfoldable pub first_of : List (ℕ × A) → Option A
  first_of [] = none
  first_of (e ∷ q) = some e.1

  unfoldable pub rest_of : List (ℕ × A) → List (ℕ × A)
  rest_of [] = []
  rest_of (e ∷ q) = q

  pub Apart-last : (a b : ℕ) (q : List (ℕ × A)) → a ≢ b → Apart a q → a ≢ last_address b q
  unfolding Apart last_address
  Apart-last a b [] n ns = n
  Apart-last a b (e ∷ q) n ns = Apart-last a e.0 q ns.0 ns.1

  pub Apart-before_last :
      (a b : ℕ) (e : ℕ × A) (q : List (ℕ × A)) → a ≢ b → Apart a (e ∷ q) → a ≢ before_last b e q
  unfolding Apart before_last
  Apart-before_last a b e [] n ns = n
  Apart-before_last a b e (f ∷ q) n ns = Apart-before_last a e.0 f q ns.0 ns.1

  pub Apart-append :
      (a : ℕ) (q : List (ℕ × A)) (e : ℕ × A) → Apart a q → a ≢ e.0 → Apart a (q ++ (e ∷ []))
  unfolding Apart
  Apart-append a [] e ns n = (n, tt)
  Apart-append a (d ∷ q) e ns n = (ns.0, Apart-append a q e ns.1 n)

  pub last-append : (a : ℕ) (q : List (ℕ × A)) (e : ℕ × A) → last_address a (q ++ (e ∷ [])) ≡ e.0
  unfolding last_address
  last-append a [] e = refl
  last-append a (d ∷ q) e = last-append d.0 q e

  pub before-append :
      (a : ℕ) (d : ℕ × A) (q : List (ℕ × A)) (e : ℕ × A)
      → before_last a d (q ++ (e ∷ [])) ≡ last_address d.0 q
  unfolding before_last last_address
  before-append a d [] e = refl
  before-append a d (f ∷ q) e = before-append d.0 f q e

-- Writing to an address what stands there changes nothing.
pub update_same {ℓ} : {A : Type ℓ} (f : ℕ → A) (i : ℕ) (a : A) → f i ≡ a → update f i a ≡ f
update_same f i a e = fun_ext λ j. elim (ℕ_discrete i j) [
  | yes same ↦ ap (update f i a) (sym same) ∙ update_self f i a ∙ sym e ∙ ap f same
  | no other ↦ update_ne f i a j other
]

-- What `new` returns is no address in use.
pub fresh-ne {ℓ} :
    {N : Type ℓ} (heap : ℕ → Option N) (p a : ℕ) (n : N) → heap p ≡ none → heap a ≡ some n → p ≢ a
fresh-ne heap p a n f e same = cc (sym f ∙ ap heap same ∙ e)

module _ {A N : Type 0} (element : N → A) (next : N → ℕ) where
  -- The node at `a` holds `x`; those behind it stand at the addresses of `q`, all different, and
  -- hold its elements; the last one leads nowhere.
  unfoldable pub Chain : (ℕ → Option N) → ℕ → A → List (ℕ × A) → Type 0
  Chain heap a x [] = (n : N) × (heap a ≡ some n) × (element n ≡ x) × (next n ≡ 0)
  Chain heap a x (e ∷ q) =
      (n : N) × (heap a ≡ some n)
      × (element n ≡ x)
      × (next n ≡ e.0)
      × (e.0 ≢ 0)
      × Apart a (e ∷ q)
      × Chain heap e.0 e.1 q

  pub Chain-update :
      (heap : ℕ → Option N) (p : ℕ) (o : Option N) (a : ℕ) (x : A) (q : List (ℕ × A))
      → p ≢ a
      → Apart p q
      → Chain heap a x q
      → Chain (update heap p o) a x q
  unfolding Chain Apart
  Chain-update heap p o a x [] n ns c = (c.0, update_ne heap p o a n ∙ c.1, c.2, c.3)
  Chain-update heap p o a x (e ∷ q) n ns c = (
    c.0,
    update_ne heap p o a n ∙ c.1,
    c.2,
    c.3,
    c.4,
    c.5,
    Chain-update heap p o e.0 e.1 q ns.0 ns.1 c.6,
  )

  -- What `new` returns stands apart from every chain.
  pub Chain-fresh :
      (heap : ℕ → Option N) (p a : ℕ) (x : A) (q : List (ℕ × A))
      → heap p ≡ none
      → Chain heap a x q
      → (p ≢ a) × Apart p q
  unfolding Chain Apart
  Chain-fresh heap p a x [] f c = (fresh-ne heap p a c.0 f c.1, tt)
  Chain-fresh heap p a x (e ∷ q) f c =
      (fresh-ne heap p a c.0 f c.1, Chain-fresh heap p e.0 e.1 q f c.6)

  pub first_node :
      (heap : ℕ → Option N) (a : ℕ) (x : A) (q : List (ℕ × A))
      → Chain heap a x q
      → (n : N) × (heap a ≡ some n) × (element n ≡ x)
  unfolding Chain
  first_node heap a x [] c = (c.0, c.1, c.2)
  first_node heap a x (e ∷ q) c = (c.0, c.1, c.2)

  pub last_node :
      (heap : ℕ → Option N) (a : ℕ) (x : A) (q : List (ℕ × A))
      → Chain heap a x q
      → (n : N) × (heap (last_address a q) ≡ some n) × (next n ≡ 0)
  unfolding Chain last_address
  last_node heap a x [] c = (c.0, c.1, c.3)
  last_node heap a x (e ∷ q) c = last_node heap e.0 e.1 q c.6

  -- The node before the last leads to the last one, which is not at 0.
  pub before_node :
      (heap : ℕ → Option N) (a : ℕ) (x : A) (e : ℕ × A) (q : List (ℕ × A))
      → Chain heap a x (e ∷ q)
      → (n : N) × (heap (before_last a e q) ≡ some n)
        × (next n ≡ last_address e.0 q)
        × (last_address e.0 q ≢ 0)
  unfolding Chain last_address before_last
  before_node heap a x e [] c = (c.0, c.1, c.3, c.4)
  before_node heap a x e (f ∷ q) c = before_node heap e.0 e.1 f q c.6

  pub before-ne-last :
      (heap : ℕ → Option N) (a : ℕ) (x : A) (e : ℕ × A) (q : List (ℕ × A))
      → Chain heap a x (e ∷ q)
      → before_last a e q ≢ last_address e.0 q
  unfolding Chain Apart last_address before_last
  before-ne-last heap a x e [] c = c.5.0
  before-ne-last heap a x e (f ∷ q) c = before-ne-last heap e.0 e.1 f q c.6

  -- Making the last node lead to a node at `p` adds that node to the chain.
  pub Chain-link :
      (heap : ℕ → Option N) (a : ℕ) (x : A) (q : List (ℕ × A)) (p : ℕ) (y : A) (m m' : N)
      → Chain heap a x q
      → p ≢ 0
      → p ≢ a
      → Apart p q
      → (new : N) × (heap p ≡ some new) × (element new ≡ y) × (next new ≡ 0)
      → heap (last_address a q) ≡ some m
      → element m' ≡ element m
      → next m' ≡ p
      → Chain (update heap (last_address a q) (some m')) a x (q ++ ((p, y) ∷ []))
  unfolding Chain Apart last_address
  Chain-link heap a x [] p y m m' c np n ns new e same leads = (
    m',
    update_self heap a (some m'),
    same ∙ ap element (some-injective m c.0 (sym e ∙ c.1)) ∙ c.2,
    leads,
    np,
    (λ s. n (sym s), tt),
    (new.0, update_ne heap a (some m') p (λ s. n (sym s)) ∙ new.1, new.2, new.3),
  )
  Chain-link heap a x (e ∷ q) p y m m' c np n ns new em same leads = (
    c.0,
    update_ne heap (last_address e.0 q) _ a (λ s. Apart-last a e.0 q c.5.0 c.5.1 (sym s)) ∙ c.1,
    c.2,
    c.3,
    c.4,
    Apart-append a (e ∷ q) (p, y) c.5 (λ s. n (sym s)),
    Chain-link heap e.0 e.1 q p y m m' c.6 np ns.0 ns.1 new em same leads,
  )

module _ {A N : Type 0} where
  -- Nothing stands at the addresses of a chain any more.
  unfoldable pub Cleared : (ℕ → Option N) → ℕ → List (ℕ × A) → Type 0
  Cleared heap a [] = heap a ≡ none
  Cleared heap a (e ∷ q) = (heap a ≡ none) × Cleared heap e.0 q
