-- ===== src/Hash/MultiLinear/Laws.antt =====
-- The hash is the multilinear polynomial of the paper, on either path and for every input it allows.
use native.Mathlib.Nat.{add-mod-mod}
use libni.Base.{
  ℕ, zero, suc, ◌+◌, ◌*◌, ◌/◌, ◌%◌, ◌^◌, ◌≤◌, ◌<◌, ◌≡◌, ◌≢◌, refl, ap, ◌∙◌, ℕ_discrete, arith, none,
  some, List, [], ◌∷◌, bit_and, ◌>>=◌, length, get_elem?, get_or,
}
use libni.Base.Bits.{bit_and-low_mask}
use libni.Hash.MultiLinear.{
  hashed, assert_failed, Hasher, draw_words, fill_random_data, add_term, odd_loop, even_loop,
  sum_of, call,
}

-- The products of the bytes with the words from position `i` on, without wrapping.
pub dot : List ℕ → List ℕ → ℕ → ℕ
dot random [] i = 0
dot random (b ∷ bs) i = get_or random i 0 * b + dot random bs (i + 1)

-- m_0 + m_1 s_1 + ... + m_n s_n + m_(n+1), the polynomial without wrapping.
pub multilinear : List ℕ → List ℕ → ℕ
unfolding dot
multilinear random input =
    get_or random 0 0 + dot random input 1 + get_or random (length input + 1) 0

get_elem?_inside : (xs : List ℕ) (i : ℕ) → i < length xs → get_elem? xs i ≡ some (get_or xs i 0)
get_elem?_inside [] i h = absurd (omega arith)
get_elem?_inside (x ∷ xs) zero h = refl
get_elem?_inside (x ∷ xs) (suc i) h = get_elem?_inside xs i (omega arith)

module _ (random : List ℕ) where
  abbrev word : ℕ → ℕ
  word i = get_or random i 0

  add_term_inside :
      (i byte sum : ℕ)
      → i < length random
      → add_term random i byte sum ≡ some ((sum + word i * byte) % 2 ^ 64)
  unfolding add_term
  add_term_inside i byte sum h =
      rw (get_elem?_inside random i h, add_term, ◌>>=◌) (ap some (add-mod-mod sum _ (2 ^ 64)))

  odd_loop_lem :
      (bs : List ℕ) (i sum : ℕ)
      → i + length bs < length random
      → odd_loop random bs i sum ≡ some ((sum + dot random bs i + word (i + length bs)) % 2 ^ 64)
  unfolding odd_loop dot
  odd_loop_lem [] i sum h =
      rw (get_elem?_inside random i (omega arith), odd_loop, ◌>>=◌)
        (ap some (omega (arith, ap word shift)))
    where
      shift : i ≡ i + 0
      shift = omega arith
  odd_loop_lem (b ∷ bs) i sum h =
      rw
        (
          add_term_inside i b sum (omega arith),
          ◌>>=◌,
          odd_loop_lem bs (i + 1) ((sum + word i * b) % 2 ^ 64) (omega arith),
        )
        (ap some (omega (arith, ap word shift)))
    where
      shift : i + 1 + length bs ≡ i + suc (length bs)
      shift = omega arith

  even_loop_lem :
      (bs : List ℕ) (i sum s2 : ℕ)
      → length bs % 2 ≡ 0
      → i + length bs < length random
      → even_loop random bs i sum s2
        ≡ some ((sum + s2 + dot random bs i + word (i + length bs)) % 2 ^ 64)
  unfolding even_loop dot
  even_loop_lem [] i sum s2 e h =
      rw (get_elem?_inside random i (omega arith), even_loop, ◌>>=◌)
        (ap some (omega (arith, ap word shift)))
    where
      shift : i ≡ i + 0
      shift = omega arith
  even_loop_lem (b ∷ []) i sum s2 e h = absurd (omega arith)
  even_loop_lem (b ∷ c ∷ bs) i sum s2 e h =
      rw
        (
          add_term_inside i b sum (omega arith),
          ◌>>=◌,
          add_term_inside (i + 1) c s2 (omega arith),
          ◌>>=◌,
          even_loop_lem bs (i + 1 + 1) ((sum + word i * b) % 2 ^ 64)
              ((s2 + word (i + 1) * c) % 2 ^ 64) (omega arith) (omega arith),
        )
        (ap some (omega (arith, ap word shift)))
    where
      shift : i + 1 + 1 + length bs ≡ i + suc (suc (length bs))
      shift = omega arith

  sum_of_lem :
      (input : List ℕ)
      → length input + 1 < length random
      → sum_of random input ≡ some (multilinear random input % 2 ^ 64)
  unfolding sum_of multilinear
  sum_of_lem input h = elim (ℕ_discrete (length input % 2) 0) [
    | yes even ↦
        rw
          (
            get_elem?_inside random 0 (omega arith),
            ◌>>=◌,
            parity,
            even,
            even_loop_lem input 1 (word 0) 0 even (omega arith),
          )
          (ap some (omega (arith, ap word swap)))
    | no odd ↦
        rw
          (
            get_elem?_inside random 0 (omega arith),
            ◌>>=◌,
            parity,
            one odd,
            odd_loop_lem input 1 (word 0) (omega arith),
          )
          (ap some (omega (arith, ap word swap)))
  ]
    where
      parity : bit_and (length input) 1 ≡ length input % 2
      parity = bit_and-low_mask 1 (length input)

      one : length input % 2 ≢ 0 → length input % 2 ≡ 1
      one odd = omega arith

      swap : 1 + length input ≡ length input + 1
      swap = omega arith

call_inside :
    {l : ℕ} (h : Hasher l) (input : List ℕ) {sum : ℕ}
    → length input ≤ l
    → sum_of h.m_rand input ≡ some sum
    → call h (some input) ≡ hashed (sum / 2 ^ 32 % 2 ^ 32)
unfolding call
call_inside h input le e = ground arith

module _ {Rng : Type 0} (draw : Rng → ℕ × Rng) where
  length-draw_words : (n : ℕ) (rng : Rng) → length (draw_words draw n rng) ≡ n
  unfolding draw_words
  length-draw_words zero rng = refl
  length-draw_words (suc n) rng = ap suc (length-draw_words n (draw rng).1)

  -- A hasher for at most `l` bytes, filled by any generator, reads no word outside its table on any
  -- input of at most `l` bytes, and returns bits 32 to 63 of the multilinear polynomial of the
  -- paper, whether the length is odd or even.
  pub call-multilinear :
      (l : ℕ) (rng : Rng) (input : List ℕ)
      → length input ≤ l
      → call (fill_random_data draw l rng) (some input)
        ≡ hashed (multilinear (fill_random_data draw l rng).m_rand input / 2 ^ 32 % 2 ^ 32)
  unfolding fill_random_data
  call-multilinear l rng input h =
      call_inside (fill_random_data draw l rng) input h (
        sum_of_lem (draw_words draw (l + 2) rng) input
          (omega (arith, length-draw_words (l + 2) rng)))
      ∙ ap hashed (omega arith)

-- A null pointer, and an input longer than the maximum, fail an `assert`.
pub call_refuses :
    {l : ℕ} (h : Hasher l) (input : List ℕ)
    → l < length input
    → (call h none ≡ assert_failed) × (call h (some input) ≡ assert_failed)
unfolding call
call_refuses h input lt = (refl, ground arith)
