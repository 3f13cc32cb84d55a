-- ===== src/Distributed/Dynamic/Kept.antt =====
-- What the operations that clean the segment leave alone: remove_backend and the loop of `put` over
-- a full segment, with the node that a registration adds.
use libni.Base.{
  weigh, ℕ, zero, suc, ◌+◌, ◌<◌, ◌≡◌, refl, sym, ap, ◌∙◌, arith, Bool, true, false, not, ◌||◌, ◌&&◌,
  [], none, some, ◌>>=◌, update, update_self, update_ne, ==_ne, ltb, ltb-true, if◌then◌else◌,
  if_false, ℕ_discrete, Bool-cases, inl, inr,
}
use libni.Distributed.Backend.{Backend}
use libni.Distributed.Dynamic.{Node, Dynamic, without, remove_backend, sweep}
use libni.Distributed.Dynamic.Segment.{
  weight_at, total, Sound, with_node, with_node-Sound, total-with_node, without-Sound,
  total-without,
}

module _ {A B : Type 0} (q : Backend B A) where
  -- From `d` to `e`: nothing is lost or added, no node of a thread is freed and no node appears.
  pub record Kept (d e : Dynamic B) : Type 0 where
    pub sound : Sound q e
    pub same : (w : A → ℕ) → total q w e ≡ total q w d
    pub living :
        (a : ℕ) (n : Node B)
        → d.node_at a ≡ some n
        → n.alive ≡ true
        → (m : Node B) × (e.node_at a ≡ some m) × (m.alive ≡ true)
    pub absent : (a : ℕ) → d.node_at a ≡ none → e.node_at a ≡ none

  pub Kept-same : {d : Dynamic B} → Sound q d → Kept d d
  Kept-same s = record {
    sound = s;
    same = λ w. refl;
    living = λ a n here up. (n, here, up);
    absent = λ a gone. gone;
  }

  pub Kept-trans : {d e f : Dynamic B} → Kept d e → Kept e f → Kept d f
  Kept-trans h k = record {
    sound = k.sound;
    same = λ w. k.same w ∙ h.same w;
    living =
        λ a n here up. let (m, there, still) = h.living a n here up in k.living a m there still;
    absent = λ a gone. k.absent a (h.absent a gone);
  }

  elsewhere :
      (d : Dynamic B) (i : ℕ) (m n : Node B)
      → d.node_at (d.m_segment i) ≡ some m
      → n.alive ≡ m.alive
      → (a : ℕ) (k : Node B) → d.node_at a ≡ some k
      → k.alive ≡ true
      → (l : Node B) × ((with_node q i n d).node_at a ≡ some l) × (l.alive ≡ true)
  elsewhere d i m n here lives a k there up = elim (ℕ_discrete (d.m_segment i) a) [
    | yes e ↦ (
      n,
      ap (update d.node_at (d.m_segment i) (some n)) (sym e)
          ∙ update_self d.node_at (d.m_segment i) (some n),
      lives ∙ cc (here, e, there, up),
    )
    | no ne ↦ (k, update_ne d.node_at (d.m_segment i) (some n) a ne ∙ there, up)
  ]

  module _ {d : Dynamic B} (s : Sound q d) (i : ℕ) (lt : i < d.m_segment_length) where
    -- The backend in a slot is replaced by one that holds the same.
    pub with_node-Kept :
        (m n : Node B)
        → d.node_at (d.m_segment i) ≡ some m
        → q.contents n.backend ≡ q.contents m.backend
        → n.alive ≡ m.alive
        → Kept d (with_node q i n d)
    with_node-Kept m n here holds lives = record {
      sound = with_node-Sound q s i lt n;
      same = λ w. omega (arith, total-with_node q s i lt w m n here, ap (weigh w) holds);
      living = elsewhere d i m n here lives;
      absent =
          λ a gone. update_ne d.node_at (d.m_segment i) (some n) a (λ e. cc (e, gone, here)) ∙ gone;
    }

    pub without-Kept :
        (n : Node B)
        → d.node_at (d.m_segment i) ≡ some n
        → n.alive ≡ false
        → q.contents n.backend ≡ []
        → Kept d (without i d)
    unfolding weight_at weigh
    without-Kept n here dead bare = record {
      sound = without-Sound q s i lt;
      same =
          λ w. omega (arith, total-without q s i lt w, ap (weight_at q w) here, ap (weigh w) bare);
      living = λ a m there up. (
        m,
        update_ne d.node_at (d.m_segment i) none a (λ e. cc (e, there, up, here, dead)) ∙ there,
        up,
      );
      absent = λ a gone. elim (ℕ_discrete (d.m_segment i) a) [
        | yes e ↦
            ap (update d.node_at (d.m_segment i) none) (sym e)
            ∙ update_self d.node_at (d.m_segment i) none
        | no ne ↦ update_ne d.node_at (d.m_segment i) none a ne ∙ gone
      ];
    }

    pub remove_backend_opens :
        (n : Node B)
        → d.node_at (d.m_segment i) ≡ some n
        → remove_backend q i d
          ≡ some (if n.alive || not (q.empty n.backend) then d else without i d)
    unfolding remove_backend
    remove_backend_opens n here =
        if_false _ (==_ne (d.m_segment i) 0 (s.nonnull i lt))
        ∙ ap
            (λ o. o >>= (λ m. some (if m.alive || not (q.empty m.backend) then d else without i d)))
            here

    pub cleared-Kept :
        (n : Node B)
        → d.node_at (d.m_segment i) ≡ some n
        → Kept d (if n.alive || not (q.empty n.backend) then d else without i d)
    cleared-Kept n here = elim (Bool-cases n.alive) [
      | inl up ↦ rw up (Kept-same s)
      | inr dead ↦ elim (Bool-cases (q.empty n.backend)) [
        | inl bare ↦ rw (dead, bare) (without-Kept n here dead ((q.empty_iff n.backend).0 bare))
        | inr holds ↦ rw (dead, holds) (Kept-same s)
      ]
    ]

    -- From a slot in use, remove_backend keeps all that the segment holds and the nodes of threads.
    pub remove_backend-Kept : (e : Dynamic B) × (remove_backend q i d ≡ some e) × Kept d e
    remove_backend-Kept =
        let (n, here) = s.stands i lt in (_, remove_backend_opens n here, cleared-Kept n here)

  sweep_past :
      (left i : ℕ) (d : Dynamic B)
      → ltb i d.m_segment_length ≡ false
      → sweep q (suc left) i d ≡ some d
  unfolding sweep
  sweep_past left i d outside = rw (sweep, outside) refl

  sweep_step :
      (left i : ℕ) (d : Dynamic B) (n : Node B)
      → ltb i d.m_segment_length ≡ true
      → d.node_at (d.m_segment i) ≡ some n
      → sweep q (suc left) i d ≡ (
          (if not n.alive && q.empty n.backend then remove_backend q i d else some d)
          >>= (λ e. sweep q left (i + 1) e))
  unfolding sweep
  sweep_step left i d n inside here = rw (sweep, inside, here) refl

  -- One turn of the loop.
  turn-Kept :
      {d : Dynamic B} (s : Sound q d) (i : ℕ) (lt : i < d.m_segment_length) (c : Bool)
      → (e : Dynamic B) × ((if c then remove_backend q i d else some d) ≡ some e) × Kept d e
  turn-Kept {d} s i lt true = remove_backend-Kept s i lt
  turn-Kept {d} s i lt false = (d, refl, Kept-same s)

  pub sweep-Kept :
      (left i : ℕ) (d : Dynamic B)
      → Sound q d
      → (e : Dynamic B) × (sweep q left i d ≡ some e) × Kept d e
  unfolding sweep
  sweep-Kept zero i d s = (d, refl, Kept-same s)
  sweep-Kept (suc left) i d s =
      elim (Bool-cases (ltb i d.m_segment_length))
        as (λ x. (e : Dynamic B) × (sweep q (suc left) i d ≡ some e) × Kept d e) [
          | inl inside ↦
              let (n, here) = s.stands i (ltb-true i d.m_segment_length inside) in
              let (e, clear, kept) =
                turn-Kept s i (ltb-true i d.m_segment_length inside)
                  (not n.alive && q.empty n.backend) in
              let (f, rest, after) = sweep-Kept left (i + 1) e kept.sound in
              (
                f,
                sweep_step left i d n inside here
                    ∙ ap (λ o. o >>= (λ e. sweep q left (i + 1) e)) clear
                    ∙ rest,
                Kept-trans kept after,
              )
          | inr outside ↦ (d, sweep_past left i d outside, Kept-same s)
        ]
