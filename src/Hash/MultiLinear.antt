-- ===== src/Hash/MultiLinear.antt =====
-- include/ni/hash/multi_linear_hash.hh: class MultiLinearDoubleHash. The generator and the uniform
-- distribution over uint64_t stand in for code of other libraries: a parameter `draw`.
pub mod Laws
use libni.Base.{
  ℕ, zero, suc, ◌+◌, ◌*◌, ◌%◌, ◌^◌, ◌≡◌, refl, Bool, true, false, not, Option, none, some, List, [],
  ◌∷◌, ==_iff, bit_and, ◌==◌, leb, ◌>>=◌, if◌then◌else◌, length, get_elem?, u32, u64, shr64,
}

-- The hash, a failed `assert`, or a read outside an array.
pub data Outcome : Type 0 where
  hashed : ℕ → Outcome
  assert_failed : Outcome
  out_of_bounds : Outcome

-- `MultiLinearDoubleHash<l>` with its `l + 2` random words
pub record Hasher (l : ℕ) : Type 0 where
  pub m_rand : List ℕ

module _ {Rng : Type 0} (draw : Rng → ℕ × Rng) where
  draw_words : ℕ → Rng → List ℕ
  draw_words zero rng = []
  draw_words (suc n) rng = let (r, rng') = draw rng in r ∷ draw_words n rng'

  -- Both constructors: `fill_random_data` with a generator that has been seeded.
  pub fill_random_data : (l : ℕ) → Rng → Hasher l
  unfolding draw_words
  fill_random_data l rng = record { m_rand = draw_words (l + 2) rng }

module _ (random : List ℕ) where
  -- `sum += *random++ * *bytes++`, with `i` for the position of `random`
  pub add_term : ℕ → ℕ → ℕ → Option ℕ
  add_term i byte sum = do r ← get_elem? random i; some (u64 (sum + u64 (r * byte)))

  -- The loop for an odd length, and the addition after it.
  odd_loop : List ℕ → (i sum : ℕ) → Option ℕ
  odd_loop [] i sum = do r ← get_elem? random i; some (u64 (sum + r))
  odd_loop (b ∷ bs) i sum = do sum' ← add_term i b sum; odd_loop bs (i + 1) sum'

  -- The loop for an even length, two bytes a round. A lone byte would take it past `end`.
  even_loop : List ℕ → (i sum s2 : ℕ) → Option ℕ
  even_loop [] i sum s2 = do r ← get_elem? random i; some (u64 (sum + u64 (r + s2)))
  even_loop (b ∷ []) i sum s2 = none
  even_loop (b ∷ c ∷ bs) i sum s2 = do
    sum' ← add_term i b sum
    s2' ← add_term (i + 1) c s2
    even_loop bs (i + 1 + 1) sum' s2'

  sum_of : List ℕ → Option ℕ
  unfolding odd_loop even_loop
  sum_of input = do
    r ← get_elem? random 0
    if bit_and (length input) 1 == 1 then odd_loop input 1 r else even_loop input 1 r 0

-- `operator()(input, len)`, where `none` is a null pointer
pub call : {l : ℕ} → Hasher l → Option (List ℕ) → Outcome
call h none = assert_failed
call {l} h (some input) =
    if leb (length input) l
    then elim (sum_of h.m_rand input) [
      | none ↦ out_of_bounds
      | some sum ↦ hashed (u32 (shr64 sum 32))
    ]
    else assert_failed
