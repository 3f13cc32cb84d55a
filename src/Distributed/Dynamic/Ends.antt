-- ===== src/Distributed/Dynamic/Ends.antt =====
-- The constructor and the destructor of LLDynamicDistributed.
use libni.Base.{
  sum_to, ℕ, zero, suc, ◌<◌, ◌≡◌, ◌≢◌, refl, sym, ap, ◌∙◌, arith, Option, none, some, update,
  update_self, update_ne, ℕ_discrete,
}
use libni.Distributed.Backend.{Backend}
use libni.Distributed.Dynamic.{Node, Dynamic, created, create, destroy_nodes, destroy}
use libni.Distributed.Dynamic.Segment.{total, Sound}

module _ {A B : Type 0} (q : Backend B A) where
  -- The nodes of the first `n` slots are gone and no other.
  pub record Freed (n : ℕ) (d e : Dynamic B) : Type 0 where
    pub emptied : e.m_segment_length ≡ 0
    pub gone : (j : ℕ) → j < n → e.node_at (d.m_segment j) ≡ none
    pub others : (a : ℕ) → ((j : ℕ) → j < n → d.m_segment j ≢ a) → e.node_at a ≡ d.node_at a

  shorter :
      {d : Dynamic B} (s : Sound q d) (left : ℕ)
      → suc left ≡ d.m_segment_length
      → Sound q
          (record d { m_segment_length = left; node_at = update d.node_at (d.m_segment left) none })
  shorter {d} s left turns = record {
    within = omega (arith, s.within);
    nonnull = λ i lt. s.nonnull i (omega arith);
    stands = λ i lt. (
      (s.stands i (omega arith)).0,
      update_ne d.node_at (d.m_segment left) none (d.m_segment i) (λ e. absurd (last_apart i lt e))
          ∙ (s.stands i (omega arith)).1,
    );
    distinct = λ i j lt below. s.distinct i j (omega arith) (omega arith);
  }
    where
      last_apart : (i : ℕ) → i < left → d.m_segment left ≢ d.m_segment i
      last_apart i lt e = omega (arith, s.distinct left i (omega arith) (omega arith) e)

  destroy_step :
      (left : ℕ) (d : Dynamic B) (n : Node B)
      → d.node_at (d.m_segment left) ≡ some n
      → destroy_nodes (suc left) d
        ≡ destroy_nodes left (record d {
          m_segment_length = left;
          node_at = update d.node_at (d.m_segment left) none;
        })
  unfolding destroy_nodes
  destroy_step left d n here = rw (destroy_nodes, here) refl

  -- `d` with slots `left` up to its length freed.
  destroy_nodes_lem :
      (left : ℕ) (d : Dynamic B)
      → left ≡ d.m_segment_length
      → Sound q d
      → (e : Dynamic B) × (destroy_nodes left d ≡ some e) × Freed left d e
  unfolding destroy_nodes
  destroy_nodes_lem zero d turns s = (
    d,
    refl,
    record {
      emptied = sym turns;
      gone = λ j below. absurd (omega arith);
      others = λ a apart. refl;
    },
  )
  destroy_nodes_lem (suc left) d turns s =
      let (n, here) = s.stands left (omega arith) in
      let (e, rest, freed) =
        destroy_nodes_lem left
          (record d { m_segment_length = left; node_at = update d.node_at (d.m_segment left) none })
          refl (shorter s left turns) in
      (
        e,
        destroy_step left d n here ∙ rest,
        record {
          emptied = freed.emptied;
          gone = λ j below. elim (ℕ_discrete j left) [
            | yes last ↦
                ap (λ i. e.node_at (d.m_segment i)) last
                ∙ freed.others (d.m_segment left)
                    (λ i lt same. omega (arith, s.distinct i left (omega arith) (omega arith) same))
                ∙ update_self d.node_at (d.m_segment left) none
            | no before ↦ freed.gone j (omega arith)
          ];
          others = λ a apart.
              freed.others a (λ j below. apart j (omega arith))
              ∙ update_ne d.node_at (d.m_segment left) none a (apart left (omega arith));
        },
      )

  -- From a segment whose slots point to different nodes: the destructor returns, the segment is then
  -- empty, the node of every slot in use is freed, each once, and no other node is.
  pub destroy_frees :
      (d : Dynamic B) (s : Sound q d)
      → (e : Dynamic B) × (destroy d ≡ some e) × Freed d.m_segment_length d e
  unfolding destroy
  destroy_frees d s = destroy_nodes_lem d.m_segment_length d refl s

  -- Where posix_memalign returns 0 the constructor gives an empty segment of the capacity asked for.
  pub create_empty :
      (capacity : ℕ) (nodes : ℕ → Option (Node B))
      → (d : Dynamic B) × (create 0 capacity nodes ≡ created d)
        × Sound q d
        × (d.m_segment_capacity ≡ capacity)
        × ((w : A → ℕ) → total q w d ≡ 0)
  unfolding create total sum_to
  create_empty capacity nodes = (
    _,
    refl,
    record {
      within = omega arith;
      nonnull = λ i below. absurd (omega arith);
      stands = λ i below. absurd (omega arith);
      distinct = λ i j below. absurd (omega arith);
    },
    refl,
    λ w. refl,
  )
