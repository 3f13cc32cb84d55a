-- ===== src/Distributed/Dynamic/Segment.antt =====
-- What a segment holds, counted by weights, and the segment without a slot.
use libni.Base.{
  sum_to_change, sum_to, sum_to_ext, weigh, ℕ, suc, ◌+◌, ◌-◌, ◌<◌, ◌≤◌, ◌≡◌, ◌≢◌, refl, sym, ap,
  ◌∙◌, arith, Option, none, some, update, update_self, update_ne, ◌==◌, ==_ne, ==_eq, if◌then◌else◌,
  if_true, if_false, ℕ_discrete,
}
use libni.Distributed.Backend.{Backend}
use libni.Distributed.Dynamic.{Node, Dynamic, without}

module _ {A B : Type 0} (q : Backend B A) where
  unfoldable pub weight_at : (A → ℕ) → Option (Node B) → ℕ
  weight_at w none = 0
  weight_at w (some n) = weigh w (q.contents n.backend)

  -- The weight of all that the segment holds.
  unfoldable pub total : (A → ℕ) → Dynamic B → ℕ
  total w d = sum_to d.m_segment_length (λ j. weight_at w (d.node_at (d.m_segment j)))

  -- The slots in use point to different nodes.
  pub record Sound (d : Dynamic B) : Type 0 where
    pub within : d.m_segment_length ≤ d.m_segment_capacity
    pub nonnull : (i : ℕ) → i < d.m_segment_length → d.m_segment i ≢ 0
    pub stands :
        (i : ℕ) → i < d.m_segment_length → (n : Node B) × (d.node_at (d.m_segment i) ≡ some n)
    pub distinct :
        (i j : ℕ)
        → i < d.m_segment_length
        → j < d.m_segment_length
        → d.m_segment i ≡ d.m_segment j
        → i ≡ j

  -- The segment with another node in the place of that in slot `i`.
  abbrev pub with_node : (i : ℕ) → Node B → Dynamic B → Dynamic B
  with_node i n d = record d { node_at = update d.node_at (d.m_segment i) (some n) }

  module _ {d : Dynamic B} (s : Sound d) (i : ℕ) (lt : i < d.m_segment_length) where
    pub with_node-Sound : (n : Node B) → Sound (with_node i n d)
    with_node-Sound n = record {
      within = s.within;
      nonnull = s.nonnull;
      stands = λ j below. elim (ℕ_discrete (d.m_segment i) (d.m_segment j)) [
        | yes same ↦ (
          n,
          ap (update d.node_at (d.m_segment i) (some n)) (sym same)
              ∙ update_self d.node_at (d.m_segment i) (some n),
        )
        | no other ↦ (
          (s.stands j below).0,
          update_ne d.node_at (d.m_segment i) (some n) (d.m_segment j) other ∙ (s.stands j below).1,
        )
      ];
      distinct = s.distinct;
    }

    pub total-with_node :
        (w : A → ℕ) (m n : Node B)
        → d.node_at (d.m_segment i) ≡ some m
        → total w (with_node i n d) + weigh w (q.contents m.backend)
          ≡ total w d + weigh w (q.contents n.backend)
    unfolding total weight_at
    total-with_node w m n here =
        ap (λ (t : ℕ). total w (with_node i n d) + t) (sym (ap (weight_at w) here))
        ∙ sum_to_change d.m_segment_length i _ _ lt (λ j below ne. ap (weight_at w) (
            update_ne d.node_at (d.m_segment i) (some n) (d.m_segment j)
              (λ e. ne (sym (s.distinct i j lt below e)))))
        ∙ ap (λ (t : ℕ). total w d + t)
            (ap (weight_at w) (update_self d.node_at (d.m_segment i) (some n)))

    -- The segment without slot `i`.
    last : ℕ
    last = d.m_segment_length - 1

    before_last : d.m_segment_length ≡ suc last
    unfolding last
    before_last = omega arith

    kept_slot :
        (j : ℕ)
        → j < d.m_segment_length - 1
        → (without i d).m_segment j
          ≡ (if i == j then d.m_segment (d.m_segment_length - 1) else d.m_segment j)
    kept_slot j below = ground arith

    -- A slot that is kept was slot `i` or the last one, or stays as it was.
    kept_from :
        (j : ℕ)
        → j < d.m_segment_length - 1
        → (k : ℕ) × (k < d.m_segment_length)
          × (k ≢ i)
          × ((without i d).m_segment j ≡ d.m_segment k)
          × (k ≡ (if i == j then d.m_segment_length - 1 else j))
    kept_from j below = elim (ℕ_discrete i j) [
      | yes e ↦ (
        d.m_segment_length - 1,
        omega arith,
        λ same. omega arith,
        ground (arith, kept_slot j below),
        ground arith,
      )
      | no ne ↦
          (j, omega arith, λ same. ne (sym same), ground (arith, kept_slot j below), ground arith)
    ]

    kept_node :
        (j : ℕ)
        → (below : j < d.m_segment_length - 1)
        → (without i d).node_at ((without i d).m_segment j)
          ≡ d.node_at (d.m_segment (kept_from j below).0)
    kept_node j below =
        let (k, lk, ne, same, which) = kept_from j below in
        ap (without i d).node_at same
        ∙ update_ne d.node_at (d.m_segment i) none (d.m_segment k)
            (λ e. ne (sym (s.distinct i k lt lk e)))

    pub without-Sound : Sound (without i d)
    without-Sound = record {
      within = omega (arith, s.within);
      nonnull = λ j below.
          let (k, lk, ne, same, which) = kept_from j below in λ z. s.nonnull k lk (sym same ∙ z);
      stands = λ j below.
          let (k, lk, ne, same, which) = kept_from j below in
          ((s.stands k lk).0, kept_node j below ∙ (s.stands k lk).1);
      distinct = λ j l below above e.
          let (k, lk, ne, same, which) = kept_from j below in
          let (m, lm, nem, samem, whichm) = kept_from l above in
          let both = s.distinct k m lk lm (sym same ∙ e ∙ samem) in ground arith;
    }

    -- The weight in slot `j`, before and after.
    slot : (A → ℕ) → ℕ → ℕ
    slot w j = weight_at w (d.node_at (d.m_segment j))

    slot_without : (A → ℕ) → ℕ → ℕ
    slot_without w j = weight_at w ((without i d).node_at ((without i d).m_segment j))

    slot_kept :
        (w : A → ℕ) (j : ℕ) → j < d.m_segment_length - 1 → j ≢ i → slot_without w j ≡ slot w j
    unfolding slot slot_without
    slot_kept w j below ne =
        let (k, lk, nk, same, which) = kept_from j below in
        ap (weight_at w) (kept_node j below)
        ∙ ap (slot w) (which ∙ if_false _ (==_ne i j (λ e. ne (sym e))))

    slot_moved :
        (w : A → ℕ)
        → i < d.m_segment_length - 1
        → slot_without w i ≡ slot w (d.m_segment_length - 1)
    unfolding slot slot_without
    slot_moved w below =
        let (k, lk, nk, same, which) = kept_from i below in
        ap (weight_at w) (kept_node i below) ∙ ap (slot w) (which ∙ if_true _ (==_eq i i refl))

    all_slots :
        (w : A → ℕ) → sum_to d.m_segment_length (slot w) ≡ sum_to last (slot w) + slot w last
    unfolding sum_to last
    all_slots w = ap (λ m. sum_to m (slot w)) before_last

    pub total-without :
        (w : A → ℕ) → total w (without i d) + weight_at w (d.node_at (d.m_segment i)) ≡ total w d
    unfolding total slot slot_without last
    total-without w = elim (ℕ_discrete i (d.m_segment_length - 1)) [
      | yes e ↦ omega (
        arith,
        sum_to_ext last (slot_without w) (slot w)
            (λ j below. slot_kept w j below (λ same. omega arith)),
        ap (slot w) e,
        all_slots w,
      )
      | no ne ↦ omega (
        arith,
        sum_to_change last i (slot_without w) (slot w) (omega arith) (slot_kept w),
        slot_moved w (omega arith),
        all_slots w,
      )
    ]
