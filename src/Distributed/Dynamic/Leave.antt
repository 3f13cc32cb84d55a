-- ===== src/Distributed/Dynamic/Leave.antt =====
-- Method deregister_thread: what happens to the backend of a thread that leaves.
use libni.Base.{
  ℕ, zero, suc, ◌+◌, ◌<◌, ◌≤◌, ◌≡◌, ◌≢◌, refl, sym, ap, subst, ◌∙◌, arith, true, false, not, none,
  some, ◌>>=◌, update_self, update_ne, ==_ne, ==_eq, if_true, if_false, ℕ_discrete, Bool-cases, inl,
  inr,
}
use libni.Distributed.Backend.{Backend}
use libni.Distributed.Dynamic.{
  Node, Dynamic, without, remove_backend, remove_node, deregister_thread,
}
use libni.Distributed.Dynamic.Segment.{total, Sound, with_node, with_node-Sound, total-with_node}
use libni.Distributed.Dynamic.Kept.{without-Kept, remove_backend_opens}

module _ {A B : Type 0} (q : Backend B A) where
  remove_node_lem :
      (left i j p : ℕ) (d : Dynamic B)
      → Sound q d
      → d.m_segment j ≡ p
      → i ≤ j
      → j < i + left
      → i + left ≤ d.m_segment_length
      → remove_node q left i p d ≡ remove_backend q j d
  unfolding remove_node
  remove_node_lem zero i j p d s at from before ends = absurd (omega arith)
  remove_node_lem (suc left) i j p d s at from before ends = elim (ℕ_discrete i j) [
    | yes e ↦ if_true _ (==_eq _ _ (ap d.m_segment e ∙ at)) ∙ ap (λ k. remove_backend q k d) e
    | no ne ↦
        if_false _
          (==_ne _ _ (λ same. ne (s.distinct i j (omega arith) (omega arith) (same ∙ sym at))))
        ∙ remove_node_lem left (i + 1) j p d s at (omega arith) (omega arith) (omega arith)
  ]

  -- What becomes of the node `n` at `p`, from `d` to `e`.
  pub data Left (d : Dynamic B) (p : ℕ) (n : Node B) (e : Dynamic B) : Type 0 where
    stays :
        q.empty n.backend ≡ false
        → e.node_at p ≡ some (record n { alive = false })
        → e.m_segment_length ≡ d.m_segment_length
        → Left d p n e
    freed :
        q.empty n.backend ≡ true
        → e.node_at p ≡ none
        → e.m_segment_length + 1 ≡ d.m_segment_length
        → Left d p n e

  pub record Leaves (d : Dynamic B) (p : ℕ) (n : Node B) (e : Dynamic B) : Type 0 where
    pub sound : Sound q e
    pub same : (w : A → ℕ) → total q w e ≡ total q w d
    pub others : (a : ℕ) → a ≢ p → e.node_at a ≡ d.node_at a
    pub left : Left d p n e

  module _ {d : Dynamic B} (s : Sound q d) (i : ℕ) (n : Node B) (lt : i < d.m_segment_length)
      (here : d.node_at (d.m_segment i) ≡ some n) where
    off : Dynamic B
    off = with_node q i (record n { alive = false }) d

    stays_there : q.empty n.backend ≡ false → deregister_thread q (d.m_segment i) d ≡ some (0, off)
    unfolding deregister_thread off
    stays_there holds = rw (deregister_thread, ==_ne _ _ (s.nonnull i lt), here, holds) refl

    goes :
        q.empty n.backend ≡ true
        → deregister_thread q (d.m_segment i) d
          ≡ (remove_node q off.m_segment_length 0 (d.m_segment i) off >>= (λ e. some (0, e)))
    unfolding deregister_thread off
    goes bare = rw (deregister_thread, ==_ne _ _ (s.nonnull i lt), here, bare) refl

    off-total : (w : A → ℕ) → total q w off ≡ total q w d
    unfolding off
    off-total w = omega (arith, total-with_node q s i lt w n (record n { alive = false }) here)

    off_others : (a : ℕ) → a ≢ d.m_segment i → off.node_at a ≡ d.node_at a
    unfolding off
    off_others a ne = update_ne d.node_at (d.m_segment i) _ a (λ e. ne (sym e))

    off-Leaves : q.empty n.backend ≡ false → Leaves d (d.m_segment i) n off
    unfolding off
    off-Leaves holds = record {
      sound = with_node-Sound q s i lt (record n { alive = false });
      same = off-total;
      others = off_others;
      left =
          stays holds (update_self d.node_at (d.m_segment i) (some (record n { alive = false })))
            refl;
    }

    without-Leaves : q.empty n.backend ≡ true → Leaves d (d.m_segment i) n (without i off)
    unfolding off
    without-Leaves bare =
        let t = with_node-Sound q s i lt (record n { alive = false }) in
        let k =
          without-Kept q t i lt (record n { alive = false })
            (update_self d.node_at (d.m_segment i) (some (record n { alive = false }))) refl
            ((q.empty_iff n.backend).0 bare) in
        record {
          sound = k.sound;
          same = λ w. k.same w ∙ off-total w;
          others = λ a ne.
              update_ne off.node_at (d.m_segment i) none a (λ e. ne (sym e)) ∙ off_others a ne;
          left = freed bare (update_self off.node_at (d.m_segment i) none) (omega arith);
        }

    freed_there :
        q.empty n.backend ≡ true → deregister_thread q (d.m_segment i) d ≡ some (0, without i off)
    unfolding off
    freed_there bare =
        let t = with_node-Sound q s i lt (record n { alive = false }) in
        goes bare
        ∙ ap (λ o. o >>= (λ e. some (0, e)))
            (remove_node_lem d.m_segment_length 0 i (d.m_segment i) off t refl (omega arith)
                (omega arith) (omega arith)
              ∙ remove_backend_opens q t i lt (record n { alive = false })
                  (update_self d.node_at (d.m_segment i) (some (record n { alive = false })))
              ∙ ap some (if_false _ (ap not bare)))

  -- From a segment whose slots point to different nodes, with the pointer to the node of slot i:
  -- deregister_thread returns, the pointer is then null, the segment holds what it held, the other
  -- nodes are as they were, and that of the thread is freed and its slot given up where its backend
  -- is empty, and else stays, no longer alive.
  pub deregister-Leaves :
      (d : Dynamic B) (s : Sound q d) (i p : ℕ) (n : Node B)
      → i < d.m_segment_length
      → d.m_segment i ≡ p
      → d.node_at p ≡ some n
      → (e : Dynamic B) × (deregister_thread q p d ≡ some (0, e)) × Leaves d p n e
  deregister-Leaves d s i p n lt at here =
      let there = ap d.node_at at ∙ here in
      subst (λ a. (e : Dynamic B) × (deregister_thread q a d ≡ some (0, e)) × Leaves d a n e) at
        (elim (Bool-cases (q.empty n.backend)) [
          | inl bare ↦ (_, freed_there s i n lt there bare, without-Leaves s i n lt there bare)
          | inr holds ↦ (_, stays_there s i n lt there holds, off-Leaves s i n lt there holds)
        ])
