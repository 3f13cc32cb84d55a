-- ===== src/Hash/Jump/Laws.antt =====
-- jump_consistent_hash returns, names a bucket, and moves a key only to the bucket that was added.
use native.Mathlib.Numerals.{add-one}
use libni.Base.{
  ℕ, zero, suc, ◌+◌, ◌^◌, ◌≤◌, ◌<◌, ◌≡◌, ◌⊎◌, inl, inr, refl, sym, subst, ◌∙◌, arith, some, lt→ltb,
  not-ltb, dec_lt, ℕ_discrete, shr64,
}
use libni.Base.Int.{pos, negsuc}
use libni.Hash.Float64.{of_int}
use libni.Hash.Float64.Laws.{Exactly, to_int-ge, of_int-Exactly, div-AtLeast, mul-AtLeast}
use libni.Hash.Jump.{next_key, jump, loop, rounds, jump_consistent_hash}

some_inj : {a b : ℕ} → some a ≡ some b → a ≡ b
some_inj e = cc

next_key-lt : (key : ℕ) → next_key key < 2 ^ 64
unfolding next_key
next_key-lt key = omega arith

-- Every jump goes forward: the quotient of the two doubles is at least 1.
jump-gt : (b key : ℕ) → b < 2 ^ 31 → key < 2 ^ 64 → b < jump b key
unfolding jump
jump-gt b key hb hk = to_int-ge (suc b) _ (
    mul-AtLeast (suc b) (of_int (b + 1)) _ factor (omega arith) (
      div-AtLeast 0x80000000 (shr64 key 33 + 1) _ _ (of_int-Exactly 0x80000000 (omega arith))
        (of_int-Exactly (shr64 key 33 + 1) (omega arith)) (omega arith) (omega arith)))
  where
    factor : Exactly (suc b) (of_int (b + 1))
    factor =
        subst (λ (k : ℕ). Exactly k (of_int (b + 1))) (add-one b)
          (of_int-Exactly (b + 1) (omega arith))

loop_done : (f n key b j : ℕ) → ¬ (j < n) → loop f (pos n) key b j ≡ some b
unfolding loop
loop_done zero n key b j h = rw (not-ltb j n h) refl
loop_done (suc f) n key b j h = rw (not-ltb j n h) refl

loop_more :
    (f n key b j : ℕ)
    → j < n
    → loop (suc f) (pos n) key b j ≡ loop f (pos n) (next_key key) j (jump j (next_key key))
unfolding loop
loop_more f n key b j h = rw (lt→ltb j n h) refl

-- With a round left for each bucket from `j` on, the loop returns the last jump below `n`.
loop_returns :
    (f n key b j : ℕ)
    → n < 2 ^ 31
    → n ≤ f + j
    → (r : ℕ) × (loop f (pos n) key b j ≡ some r) × ((j < n → r < n) × (¬ (j < n) → r ≡ b))
loop_returns zero n key b j small fuel =
    (b, loop_done zero n key b j (omega arith), (λ lt. absurd (omega arith), λ _. refl))
loop_returns (suc f) n key b j small fuel = elim (dec_lt j n) [
  | no h ↦ (b, loop_done (suc f) n key b j h, (λ lt. absurd (h lt), λ _. refl))
  | yes lt ↦
      let key' = next_key key in
      let forward = jump-gt j key' (omega arith) (next_key-lt key) in
      let (r, e, inside) = loop_returns f n key' j (jump j key') small (omega arith) in
      (
        r,
        loop_more f n key b j lt ∙ e,
        (
          (λ _. elim (dec_lt (jump j key') n) [
            | yes more ↦ inside.0 more
            | no done ↦ rw (inside.1 done) lt
          ]),
          λ h. absurd (h lt),
        ),
      )
]

-- A loop that the test of its first round ends.
loop_last : (f n key b j : ℕ) {r : ℕ} → ¬ (j < n) → loop f (pos n) key b j ≡ some r → r ≡ b
loop_last f n key b j h e = some_inj (sym e ∙ loop_done f n key b j h)

loop_empty : (n key b j : ℕ) {r : ℕ} → loop zero (pos n) key b j ≡ some r → ¬ (j < n)
unfolding loop
loop_empty n key b j e lt = ground arith

-- The loop for `n` buckets ends here; the one for `n + 1` ends here too, or after one more jump.
last_round :
    (g n key b j : ℕ) {r s : ℕ}
    → n + 1 < 2 ^ 31
    → ¬ (j < n)
    → r ≡ b
    → loop g (pos (n + 1)) key b j ≡ some s
    → (s ≡ r) ⊎ (s ≡ n)
last_round zero n key b j small h e q =
    inl (loop_last zero (n + 1) key b j (loop_empty (n + 1) key b j q) q ∙ sym e)
last_round (suc g) n key b j small h e q = elim (ℕ_discrete j n) [
  | yes same ↦ inr (
      loop_last g (n + 1) (next_key key) j (jump j (next_key key)) (beyond same)
        (sym (loop_more g (n + 1) key b j (omega arith)) ∙ q)
      ∙ same)
  | no other ↦ inl (loop_last (suc g) (n + 1) key b j (omega arith) q ∙ sym e)
]
  where
    beyond : j ≡ n → ¬ (jump j (next_key key) < n + 1)
    beyond same = omega (arith, jump-gt j (next_key key) (omega arith) (next_key-lt key))

loop_consistent :
    (f g n key b j : ℕ) {r s : ℕ}
    → n + 1 < 2 ^ 31
    → loop f (pos n) key b j ≡ some r
    → loop g (pos (n + 1)) key b j ≡ some s
    → (s ≡ r) ⊎ (s ≡ n)
loop_consistent zero g n key b j small p q =
    last_round g n key b j small (loop_empty n key b j p)
      (loop_last zero n key b j (loop_empty n key b j p) p) q
loop_consistent (suc f) zero n key b j small p q =
    last_round zero n key b j small (λ lt. loop_empty (n + 1) key b j q (omega arith))
      (loop_last (suc f) n key b j (λ lt. loop_empty (n + 1) key b j q (omega arith)) p) q
loop_consistent (suc f) (suc g) n key b j small p q = elim (dec_lt j n) [
  | yes lt ↦
      loop_consistent f g n (next_key key) j (jump j (next_key key)) small
        (sym (loop_more f n key b j lt) ∙ p) (sym (loop_more g (n + 1) key b j (omega arith)) ∙ q)
  | no h ↦ last_round (suc g) n key b j small h (loop_last (suc f) n key b j h p) q
]

-- The number of buckets is an int32_t that is not negative.
abbrev pub IsCount : ℕ → Type 0
IsCount n = n < 2 ^ 31

-- For a positive number of buckets the function returns, and what it returns is the number of a
-- bucket.
pub jump_consistent_hash-lt :
    (key n : ℕ)
    → IsCount n
    → 0 < n
    → (r : ℕ) × (jump_consistent_hash key (pos n) ≡ some r) × (r < n)
unfolding jump_consistent_hash rounds
jump_consistent_hash-lt key n small h =
    let (r, e, inside) = loop_returns n n key 1 0 small (omega arith) in (r, e, inside.0 h)

-- A bucket added at the end takes keys over, and no key moves between the others: with one bucket
-- more, every key goes to the bucket it had or to the new one.
pub jump_consistent_hash_monotone :
    (key n : ℕ) {r s : ℕ}
    → IsCount (n + 1)
    → jump_consistent_hash key (pos n) ≡ some r
    → jump_consistent_hash key (pos (n + 1)) ≡ some s
    → (s ≡ r) ⊎ (s ≡ n)
unfolding jump_consistent_hash rounds
jump_consistent_hash_monotone key n small p q = loop_consistent n (n + 1) n key 1 0 small p q

-- With no bucket, or a negative number of them, the function still returns bucket 1.
pub jump_consistent_hash_none :
    (key n : ℕ)
    → (jump_consistent_hash key (pos 0) ≡ some 1) × (jump_consistent_hash key (negsuc n) ≡ some 1)
unfolding jump_consistent_hash rounds loop
jump_consistent_hash_none key n = (refl, refl)
