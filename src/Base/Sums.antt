-- ===== src/Base/Sums.antt =====
-- Lists counted by weights, where `w` may be any weight of an element, such as 1 for the elements
-- of a set and 0 for all others; and sums over a range.
use Prim.Native.Nat.{ℕ, zero, suc, ◌+◌, ◌<◌}
use mathlib.Core.Path.{◌≡◌, refl, sym, ap, ◌∙◌}
use mathlib.Core.Logic.{◌≢◌}
use mathlib.Core.List.{List, [], ◌∷◌, ◌++◌}
use native.Mathlib.Omega.{arith}
use native.Mathlib.Decide.{ℕ_discrete}
use libni.Base.Family.{update, update_self, update_ne}

unfoldable pub weigh {ℓ} : {A : Type ℓ} → (A → ℕ) → List A → ℕ
weigh w [] = 0
weigh w (x ∷ xs) = w x + weigh w xs

pub weigh-append {ℓ} :
    {A : Type ℓ} (w : A → ℕ) (xs ys : List A) → weigh w (xs ++ ys) ≡ weigh w xs + weigh w ys
unfolding weigh
weigh-append w [] ys = omega arith
weigh-append w (x ∷ xs) ys = omega (arith, weigh-append w xs ys)

unfoldable pub sum_to : ℕ → (ℕ → ℕ) → ℕ
sum_to zero f = 0
sum_to (suc n) f = sum_to n f + f n

pub sum_to_next : (n : ℕ) (f : ℕ → ℕ) → sum_to (n + 1) f ≡ sum_to n f + f n
unfolding sum_to
sum_to_next n f = let one_more : n + 1 ≡ suc n = omega arith in ap (λ m. sum_to m f) one_more

pub sum_to_ext : (n : ℕ) (f g : ℕ → ℕ) → ((j : ℕ) → j < n → f j ≡ g j) → sum_to n f ≡ sum_to n g
unfolding sum_to
sum_to_ext zero f g h = refl
sum_to_ext (suc n) f g h =
    omega (arith, sum_to_ext n f g (λ j lt. h j (omega arith)), h n (omega arith))

-- Sums of families that differ at one index.
pub sum_to_change :
    (n i : ℕ) (f g : ℕ → ℕ)
    → i < n
    → ((j : ℕ) → j < n → j ≢ i → f j ≡ g j)
    → sum_to n f + g i ≡ sum_to n g + f i
unfolding sum_to
sum_to_change zero i f g lt h = absurd (omega arith)
sum_to_change (suc n) i f g lt h = elim (ℕ_discrete i n) [
  | yes last ↦ omega (
    arith,
    ap f last,
    ap g last,
    sum_to_ext n f g (λ j below. h j (omega arith) (λ e. omega arith)),
  )
  | no before ↦ omega (
    arith,
    sum_to_change n i f g (omega arith) (λ j below ne. h j (omega arith) ne),
    h n (omega arith) (λ e. before (sym e)),
  )
]

-- The sum of the weights of a family in which one place is written.
pub sum_to-update {ℓ} :
    {A : Type ℓ} (n i : ℕ) (w : A → ℕ) (f : ℕ → A) (a : A)
    → i < n
    → sum_to n (λ j. w (update f i a j)) + w (f i) ≡ sum_to n (λ j. w (f j)) + w a
sum_to-update n i w f a lt =
    sum_to_change n i (λ j. w (update f i a j)) (λ j. w (f j)) lt
      (λ j below ne. ap w (update_ne f i a j (λ e. ne (sym e))))
    ∙ ap (λ (k : ℕ). sum_to n (λ j. w (f j)) + k) (ap w (update_self f i a))

pub sum_to_zero : (n : ℕ) (f : ℕ → ℕ) → ((j : ℕ) → j < n → f j ≡ 0) → sum_to n f ≡ 0
unfolding sum_to
sum_to_zero zero f h = refl
sum_to_zero (suc n) f h =
    omega (arith, sum_to_zero n f (λ j lt. h j (omega arith)), h n (omega arith))
