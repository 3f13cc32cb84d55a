-- ===== src/Distributed/Dynamic/Round.antt =====
-- The loop of `get` that pops from one backend after the other, from a random slot on.
use libni.Base.{
  weigh, ℕ, zero, suc, ◌+◌, ◌%◌, ◌<◌, ◌≡◌, refl, sym, ap, subst, ◌∙◌, arith, Bool, true, false, not,
  ◌||◌, List, [], ◌∷◌, ◌++◌, Option, none, some, ◌>>=◌, update_self, update_ne, if_false,
  ℕ_discrete, Bool-cases, inl, inr, Option-cases, get_or, length, length-append, get_or-append_last,
  get_or-append_front,
}
use libni.Spsc.Ring.Inv.{around_inj, around-lt}
use libni.Distributed.Backend.{Backend, front}
use libni.Distributed.Dynamic.{Node, Dynamic, remove_backend, scan, Scan, taken, retry, passed}
use libni.Distributed.Dynamic.Segment.{total, Sound, with_node, with_node-Sound, total-with_node}
use libni.Distributed.Dynamic.Kept.{
  Kept, Kept-same, Kept-trans, with_node-Kept, without-Kept, remove_backend_opens,
}

module _ {A B : Type 0} (q : Backend B A) where
  dead_or : {a b : Bool} → a ≡ false → b ≡ true → (a || not b) ≡ false
  dead_or e f = rw (e, f) refl

  -- The backend at an address is empty, and its tail has the state `state`.
  pub record Seen (d : Dynamic B) (address state : ℕ) : Type 0 where
    pub node : Node B
    pub here : d.node_at address ≡ some node
    pub bare : q.contents node.backend ≡ []
    pub same : q.tail_state node.backend ≡ state

  -- How a scan of all slots ends.
  pub data Scanned (d : Dynamic B) (start : ℕ) : Scan A B → Type 0 where
    was_taken :
        {x : A} {e : Dynamic B}
        → Sound q e
        → ((w : A → ℕ) → total q w d ≡ w x + total q w e)
        → Scanned d start (taken x e)
    was_cleared :
        {e : Dynamic B}
        → Kept q d e
        → e.m_segment_length < d.m_segment_length
        → Scanned d start (retry e)
    was_passed :
        {states : List ℕ} {e : Dynamic B}
        → Kept q d e
        → e.m_version ≡ d.m_version
        → e.m_segment_length ≡ d.m_segment_length
        → ((k : ℕ)
            → k < e.m_segment_length
            → Seen e (e.m_segment ((start + k) % e.m_segment_length)) (get_or states k 0))
        → Scanned d start (passed states e)

  Scanned-from :
      {d e : Dynamic B} {start : ℕ} {r : Scan A B}
      → Kept q d e
      → e.m_version ≡ d.m_version
      → e.m_segment_length ≡ d.m_segment_length
      → Scanned e start r
      → Scanned d start r
  Scanned-from k v l (was_taken s h) = was_taken s (λ w. sym (k.same w) ∙ h w)
  Scanned-from k v l (was_cleared h less) = was_cleared (Kept-trans q k h) (omega arith)
  Scanned-from k v l (was_passed h v' l' seen) =
      was_passed (Kept-trans q k h) (v' ∙ v) (l' ∙ l) seen

  -- The node `n` after a pop.
  abbrev pub popped : Node B → Node B
  popped n = record n { backend = (q.pop n.backend).2 }

  module _ {d : Dynamic B} (s : Sound q d) (i start : ℕ) (states : List ℕ) (n : Node B)
      (here : d.node_at (d.m_segment ((start + i) % d.m_segment_length)) ≡ some n) where
    slot : ℕ
    slot = (start + i) % d.m_segment_length

    scan_takes :
        (left : ℕ) (x : A)
        → (q.pop n.backend).0 ≡ some x
        → scan q (suc left) i start states d
          ≡ some (taken x (with_node q ((start + i) % d.m_segment_length) (popped n) d))
    unfolding scan
    scan_takes left x found = rw (scan, here, found) refl

    -- The rest of the turn, where the backend gave nothing.
    abbrev missed : ℕ → Bool → Option (Scan A B)
    missed left true =
        scan q left (i + 1) start (states ++ ((q.pop n.backend).1 ∷ []))
          (with_node q ((start + i) % d.m_segment_length) (popped n) d)
    missed left false =
        remove_backend q ((start + i) % d.m_segment_length)
          (with_node q ((start + i) % d.m_segment_length) (popped n) d)
        >>= (λ e. some (retry e))

    scan_misses :
        (left : ℕ)
        → (q.pop n.backend).0 ≡ none
        → scan q (suc left) i start states d ≡ missed left n.alive
    unfolding scan
    scan_misses left nothing = rw (scan, here, nothing) (either n.alive)
      where
        either :
            (c : Bool)
            → (elim c as (λ x. Option (Scan A B)) [
              | true ↦
                  scan q left
                    (i + 1)
                    start
                    (states ++ ((q.pop n.backend).1 ∷ []))
                    (with_node q ((start + i) % d.m_segment_length) (popped n) d)
              | false ↦
                  remove_backend q
                    ((start + i) % d.m_segment_length)
                    (with_node q ((start + i) % d.m_segment_length) (popped n) d)
                  >>= (λ e. some (retry e))
            ])
              ≡ missed left c
        either true = refl
        either false = refl

    scan_passes :
        (left : ℕ)
        → (q.pop n.backend).0 ≡ none
        → n.alive ≡ true
        → scan q (suc left) i start states d
          ≡ scan q left
              (i + 1)
              start
              (states ++ ((q.pop n.backend).1 ∷ []))
              (with_node q ((start + i) % d.m_segment_length) (popped n) d)
    scan_passes left nothing up = scan_misses left nothing ∙ ap (missed left) up

    scan_clears :
        (left : ℕ) (e : Dynamic B)
        → (q.pop n.backend).0 ≡ none
        → n.alive ≡ false
        → remove_backend q
            ((start + i) % d.m_segment_length)
            (with_node q ((start + i) % d.m_segment_length) (popped n) d)
          ≡ some e
        → scan q (suc left) i start states d ≡ some (retry e)
    scan_clears left e nothing down removes =
        scan_misses left nothing
        ∙ ap (missed left) down
        ∙ ap (λ o. o >>= (λ f. some (retry f))) removes

    module _ (inside : slot < d.m_segment_length) where
      nothing_left :
          (q.pop n.backend).0 ≡ none → q.contents (q.pop n.backend).2 ≡ q.contents n.backend
      nothing_left nothing =
          sym (q.pop_lem n.backend ∙ ap (λ o. front o ++ q.contents (q.pop n.backend).2) nothing)

      passes-Kept : (q.pop n.backend).0 ≡ none → Kept q d (with_node q slot (popped n) d)
      unfolding slot
      passes-Kept nothing =
          with_node-Kept q s slot inside n (popped n) here (nothing_left nothing) refl

      taken_total :
          (x : A)
          → (q.pop n.backend).0 ≡ some x
          → (w : A → ℕ) → total q w d ≡ w x + total q w (with_node q slot (popped n) d)
      unfolding slot weigh
      taken_total x found w =
          let all =
            ap (weigh w)
              (q.pop_lem n.backend ∙ ap (λ o. front o ++ q.contents (q.pop n.backend).2) found) in
          omega (arith, total-with_node q s slot inside w n (popped n) here, all)

      clears :
          (q.pop n.backend).0 ≡ none
          → n.alive ≡ false
          → (e : Dynamic B) × (remove_backend q slot (with_node q slot (popped n) d) ≡ some e)
            × Kept q d e
            × (e.m_segment_length < d.m_segment_length)
      unfolding slot
      clears nothing down =
          let t = with_node-Sound q s slot inside (popped n) in
          let now = update_self d.node_at (d.m_segment slot) (some (popped n)) in
          let bare = nothing_left nothing ∙ (q.pop_none n.backend nothing).0 in
          (
            _,
            remove_backend_opens q t slot inside (popped n) now
                ∙ ap some (if_false _ (dead_or down ((q.empty_iff (q.pop n.backend).2).1 bare))),
            Kept-trans q (passes-Kept nothing)
                (without-Kept q t slot inside (popped n) now down bare),
            omega arith,
          )

      -- One slot more has been seen.
      now-Seen :
          0 < d.m_segment_length
          → start < d.m_segment_length
          → i < d.m_segment_length
          → length states ≡ i
          → (q.pop n.backend).0 ≡ none
          → ((k : ℕ)
              → k < i
              → Seen d (d.m_segment ((start + k) % d.m_segment_length)) (get_or states k 0))
          → (k : ℕ) → k < i + 1
          → Seen
              (with_node q slot (popped n) d)
              (d.m_segment ((start + k) % d.m_segment_length))
              (get_or (states ++ ((q.pop n.backend).1 ∷ [])) k 0)
      unfolding slot
      now-Seen some_slot starts turns counts nothing seen k below = elim (ℕ_discrete k i) [
        | yes e ↦
            subst
              (λ (j : ℕ).
                Seen (with_node q slot (popped n) d)
                  (d.m_segment ((start + j) % d.m_segment_length))
                  (get_or (states ++ ((q.pop n.backend).1 ∷ [])) j 0))
              (sym e)
              (record {
                node = popped n;
                here = update_self d.node_at (d.m_segment slot) (some (popped n));
                bare = nothing_left nothing ∙ (q.pop_none n.backend nothing).0;
                same =
                    (q.pop_none n.backend nothing).1
                    ∙ sym (
                        ap (λ (j : ℕ). get_or (states ++ ((q.pop n.backend).1 ∷ [])) j 0)
                          (sym counts)
                        ∙ get_or-append_last states (q.pop n.backend).1 0);
              })
        | no ne ↦
            let old = seen k (omega arith) in
            let apart = λ (e : d.m_segment slot ≡ d.m_segment ((start + k) % d.m_segment_length)).
              ne (
                sym (
                  around_inj d.m_segment_length start i k starts turns (omega arith) (
                    s.distinct slot ((start + k) % d.m_segment_length) inside
                      (around-lt d.m_segment_length start k some_slot) e))) in
            record {
              node = old.node;
              here =
                  update_ne d.node_at (d.m_segment slot) (some (popped n))
                    (d.m_segment ((start + k) % d.m_segment_length)) apart
                  ∙ old.here;
              bare = old.bare;
              same =
                  old.same
                  ∙ sym (get_or-append_front states ((q.pop n.backend).1 ∷ []) k 0 (omega arith));
            }
      ]

  -- The scan ends, and what it says of the segment is so.
  pub scan_lem :
      (left i start : ℕ) (states : List ℕ) {d : Dynamic B} (s : Sound q d)
      → start < d.m_segment_length
      → i + left ≡ d.m_segment_length
      → length states ≡ i
      → ((k : ℕ)
          → k < i
          → Seen d (d.m_segment ((start + k) % d.m_segment_length)) (get_or states k 0))
      → (r : Scan A B) × (scan q left i start states d ≡ some r) × Scanned d start r
  unfolding scan slot
  scan_lem zero i start states {d} s starts turns counts seen =
      (_, refl, was_passed (Kept-same q s) refl refl (λ k below. seen k (omega arith)))
  scan_lem (suc left) i start states {d} s starts turns counts seen =
      let some_slot : 0 < d.m_segment_length = omega arith in
      let inside = around-lt d.m_segment_length start i some_slot in
      let (n, here) = s.stands ((start + i) % d.m_segment_length) inside in
      elim (Option-cases (q.pop n.backend).0)
        as (λ x.
          (r : Scan A B) × (scan q (suc left) i start states d ≡ some r) × Scanned d start r) [
            | inr (x, found) ↦ (
              _,
              scan_takes s i start states n here left x found,
              was_taken (with_node-Sound q s ((start + i) % d.m_segment_length) inside (popped n))
                  (taken_total s i start states n here inside x found),
            )
            | inl nothing ↦
                elim (Bool-cases n.alive)
                  as (λ x.
                    (r : Scan A B) × (scan q (suc left) i start states d ≡ some r)
                    × Scanned d start r) [
                      | inl up ↦
                          let kept = passes-Kept s i start states n here inside nothing in
                          let (r, scans, rest) =
                            scan_lem left (i + 1) start (states ++ ((q.pop n.backend).1 ∷ []))
                              kept.sound starts (omega arith)
                              (omega (arith, length-append states ((q.pop n.backend).1 ∷ [])))
                              (now-Seen s i start states n here inside some_slot starts
                                (omega arith) counts nothing seen) in
                          (
                            r,
                            scan_passes s i start states n here left nothing up ∙ scans,
                            Scanned-from kept refl refl rest,
                          )
                      | inr down ↦
                          let (e, removes, kept, less) =
                            clears s i start states n here inside nothing down in
                          (
                            retry e,
                            scan_clears s i start states n here left e nothing down removes,
                            was_cleared kept less,
                          )
                    ]
          ]
