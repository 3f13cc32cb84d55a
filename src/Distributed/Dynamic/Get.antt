-- ===== src/Distributed/Dynamic/Get.antt =====
-- Method get: what it takes, that it ends, and when it finds nothing.
use libni.Base.{
  weigh, sum_to_zero, ℕ, zero, suc, ◌+◌, ◌-◌, ◌%◌, ◌<◌, ◌≡◌, ◌≢◌, ◌↔◌, refl, sym, ap, subst, ◌∙◌,
  arith, Bool, true, false, List, [], ◌∷◌, ◌++◌, Option, none, some, ◌>>=◌, ==_ne, ==_eq, leb,
  if_true, ℕ_discrete, Bool-cases, inl, inr, Option-cases, get_or, length,
}
use libni.Spsc.Ring.Inv.{around, around_lem}
use native.Mathlib.Nat.{mod-lt}
use libni.Distributed.Backend.{Backend, front}
use libni.Distributed.Dynamic.{
  Node, Dynamic, scan, Scan, taken, retry, passed, unchanged, search_all, get,
}
use libni.Distributed.Dynamic.Segment.{
  weight_at, total, Sound, with_node, with_node-Sound, total-with_node,
}
use libni.Distributed.Dynamic.Kept.{Kept, Kept-same, Kept-trans, with_node-Kept}
use libni.Distributed.Dynamic.Round.{Seen, Scanned, was_taken, was_cleared, was_passed, scan_lem}
use libni.Distributed.Dynamic.Put.{Owner, unregistered, bound}

-- The turn that reaches slot `j`.
reached : (n start j : ℕ) → start < n → j < n → (k : ℕ) × (k < n) × (around n start k ≡ j)
reached n start j starts below = elim (Bool-cases (leb start j)) [
  | inl after ↦ (j - start, ground arith, ground (arith, around_lem n start (j - start)))
  | inr before ↦ (j + n - start, ground arith, ground (arith, around_lem n start (j + n - start)))
]

module _ {A B : Type 0} (q : Backend B A) where
  -- How `get` from `d` ends: with an element of the segment, or with nothing where it is empty.
  pub data Got (d : Dynamic B) : Option A → Dynamic B → Type 0 where
    found :
        {x : A} {e : Dynamic B}
        → Sound q e
        → ((w : A → ℕ) → total q w d ≡ w x + total q w e)
        → Got d (some x) e
    nothing : {e : Dynamic B} → Kept q d e → ((w : A → ℕ) → total q w e ≡ 0) → Got d none e

  Got-from : {d e f : Dynamic B} {o : Option A} → Kept q d e → Got e o f → Got d o f
  Got-from k (found s h) = found s (λ w. sym (k.same w) ∙ h w)
  Got-from k (nothing h z) = nothing (Kept-trans q k h) z

  AllSeen : ℕ → List ℕ → Dynamic B → Type 0
  AllSeen start states d =
      (k : ℕ)
      → k < d.m_segment_length
      → Seen q d (d.m_segment ((start + k) % d.m_segment_length)) (get_or states k 0)

  unchanged_step :
      (left i start : ℕ) (states : List ℕ) (d : Dynamic B) (n : Node B)
      → d.node_at (d.m_segment ((start + i) % d.m_segment_length)) ≡ some n
      → q.tail_state n.backend ≡ get_or states i 0
      → unchanged q (suc left) i start states d ≡ unchanged q left (i + 1) start states d
  unfolding unchanged
  unchanged_step left i start states d n here same =
      rw (unchanged, here) (if_true _ (==_eq _ _ same))

  unchanged_lem :
      (left i start : ℕ) (states : List ℕ) (d : Dynamic B)
      → AllSeen start states d
      → i + left ≡ d.m_segment_length
      → unchanged q left i start states d ≡ some true
  unfolding unchanged AllSeen
  unchanged_lem zero i start states d seen turns = refl
  unchanged_lem (suc left) i start states d seen turns =
      let now = seen i (omega arith) in
      unchanged_step left i start states d now.node now.here now.same
      ∙ unchanged_lem left (i + 1) start states d seen (omega arith)

  bare_slot :
      {d : Dynamic B} {address state : ℕ}
      → Seen q d address state
      → (w : A → ℕ) → weight_at q w (d.node_at address) ≡ 0
  unfolding weight_at weigh
  bare_slot seen w = ap (weight_at q w) seen.here ∙ ap (weigh w) seen.bare

  all_bare :
      (start : ℕ) (states : List ℕ) (d : Dynamic B)
      → start < d.m_segment_length
      → AllSeen start states d
      → (w : A → ℕ) → total q w d ≡ 0
  unfolding AllSeen total
  all_bare start states d starts seen w = sum_to_zero d.m_segment_length _ (λ j below.
      let (k, lk, at) = reached d.m_segment_length start j starts below in
      ap (λ (i : ℕ). weight_at q w (d.node_at (d.m_segment i))) (sym at) ∙ bare_slot (seen k lk) w)

  Searched : Dynamic B → Option (Option A × Dynamic B) → Type 0
  Searched d r = (o : Option A) × (e : Dynamic B) × (r ≡ some (o, e)) × Got d o e

  search_empty :
      (r : ℕ) (rs : List ℕ) (d : Dynamic B)
      → d.m_segment_length ≡ 0
      → search_all q (r ∷ rs) d ≡ some (none, d)
  unfolding search_all
  search_empty r rs d e = rw (search_all, ==_eq _ _ e) refl

  -- One turn, by how its scan ends.
  search_takes :
      (r : ℕ) (rs : List ℕ) (d : Dynamic B) (x : A) (e : Dynamic B)
      → d.m_segment_length ≢ 0
      → scan q d.m_segment_length 0 (r % d.m_segment_length) [] d ≡ some (taken x e)
      → search_all q (r ∷ rs) d ≡ some (some x, e)
  unfolding search_all
  search_takes r rs d x e full scans = rw (search_all, ==_ne _ _ full, scans) refl

  search_clears :
      (r : ℕ) (rs : List ℕ) (d : Dynamic B) (e : Dynamic B)
      → d.m_segment_length ≢ 0
      → scan q d.m_segment_length 0 (r % d.m_segment_length) [] d ≡ some (retry e)
      → search_all q (r ∷ rs) d ≡ search_all q rs e
  unfolding search_all
  search_clears r rs d e full scans = rw (search_all, ==_ne _ _ full, scans) refl

  ends :
      (c : Bool) (o : Option Bool) (e : Dynamic B) (again : Option (Option A × Dynamic B))
      → c ≡ true
      → o ≡ some true
      → (elim c as (λ x. Option (Option A × Dynamic B)) [
        | false ↦ again
        | true ↦ o >>= (λ same. elim same as (λ x. Option (Option A × Dynamic B)) [
          | true ↦ some (none, e)
          | false ↦ again
        ])
      ])
        ≡ some (none, e)
  ends c o e again version same = rw (version, same) refl

  search_passes :
      (r : ℕ) (rs : List ℕ) (d : Dynamic B) (states : List ℕ) (e : Dynamic B)
      → d.m_segment_length ≢ 0
      → scan q d.m_segment_length 0 (r % d.m_segment_length) [] d ≡ some (passed states e)
      → e.m_version ≡ d.m_version
      → unchanged q e.m_segment_length 0 (r % d.m_segment_length) states e ≡ some true
      → search_all q (r ∷ rs) d ≡ some (none, e)
  unfolding search_all
  search_passes r rs d states e full scans version same =
      rw (search_all, ==_ne _ _ full, scans) (ends _ _ e _ (==_eq _ _ version) same)

  -- `again` is the claim for the turns that are left.
  turn :
      (r : ℕ) (rs : List ℕ) (d : Dynamic B)
      → ((e : Dynamic B)
          → Sound q e
          → e.m_segment_length < length rs
          → Searched e (search_all q rs e))
      → d.m_segment_length < length (r ∷ rs)
      → d.m_segment_length ≢ 0
      → r % d.m_segment_length < d.m_segment_length
      → (t : Scan A B) → scan q d.m_segment_length 0 (r % d.m_segment_length) [] d ≡ some t
      → Scanned q d (r % d.m_segment_length) t
      → Searched d (search_all q (r ∷ rs) d)
  unfolding Searched AllSeen
  turn r rs d again enough full starts _ scans (was_taken t h) =
      (_, _, search_takes r rs d _ _ full scans, found t h)
  turn r rs d again enough full starts _ scans (was_cleared {e} kept less) =
      let (o, f, rest, got) = again e kept.sound (omega arith) in
      (o, f, search_clears r rs d e full scans ∙ rest, Got-from kept got)
  turn r rs d again enough full starts _ scans (was_passed {states} {e} kept version same seen) = (
    none,
    e,
    search_passes r rs d states e full scans version
        (unchanged_lem e.m_segment_length 0 (r % d.m_segment_length) states e seen (omega arith)),
    nothing kept (all_bare (r % d.m_segment_length) states e (omega arith) seen),
  )

  none_held : (d : Dynamic B) → d.m_segment_length ≡ 0 → (w : A → ℕ) → total q w d ≡ 0
  unfolding total
  none_held d e w = sum_to_zero d.m_segment_length _ (λ j below. absurd (omega arith))

  -- A draw for each slot and one more are enough.
  search_lem :
      (draws : List ℕ) (d : Dynamic B)
      → Sound q d
      → d.m_segment_length < length draws
      → Searched d (search_all q draws d)
  unfolding Searched
  search_lem [] d s enough = absurd (omega arith)
  search_lem (r ∷ rs) d s enough =
      elim (ℕ_discrete d.m_segment_length 0) as (λ x. Searched d (search_all q (r ∷ rs) d)) [
        | yes e ↦ (none, d, search_empty r rs d e, nothing (Kept-same q s) (none_held d e))
        | no full ↦
            let starts = mod-lt r {m = d.m_segment_length} (omega arith) in
            let (t, scans, how) =
              scan_lem q d.m_segment_length 0 (r % d.m_segment_length) [] s starts (omega arith)
                refl (λ k below. absurd (omega arith)) in
            turn r rs d (search_lem rs) enough full starts t scans how
      ]

  get_misses :
      (draws : List ℕ) (d : Dynamic B) (i : ℕ) (n : Node B)
      → d.m_segment i ≢ 0
      → d.node_at (d.m_segment i) ≡ some n
      → (q.get n.backend).0 ≡ none
      → get q draws (d.m_segment i) d
        ≡ search_all q draws (with_node q i (record n { backend = (q.get n.backend).1 }) d)
  unfolding get
  get_misses draws d i n nonzero here misses = rw (get, ==_ne _ _ nonzero, here, misses) refl

  get_hits :
      (draws : List ℕ) (d : Dynamic B) (i : ℕ) (n : Node B) (x : A)
      → d.m_segment i ≢ 0
      → d.node_at (d.m_segment i) ≡ some n
      → (q.get n.backend).0 ≡ some x
      → get q draws (d.m_segment i) d
        ≡ some (some x, with_node q i (record n { backend = (q.get n.backend).1 }) d)
  unfolding get
  get_hits draws d i n x nonzero here hits = rw (get, ==_ne _ _ nonzero, here, hits) refl

  module _ (draws : List ℕ) {d : Dynamic B} (s : Sound q d) (i : ℕ) (n : Node B)
      (lt : i < d.m_segment_length) (here : d.node_at (d.m_segment i) ≡ some n) where
    got : (q.contents n.backend) ≡ front (q.get n.backend).0 ++ q.contents (q.get n.backend).1
    got = q.get_lem n.backend

    get_slot : d.m_segment_length < length draws → Searched d (get q draws (d.m_segment i) d)
    unfolding Searched weigh
    get_slot enough =
        let after : Node B = record n { backend = (q.get n.backend).1 } in
        elim (Option-cases (q.get n.backend).0)
          as (λ x. Searched d (get q draws (d.m_segment i) d)) [
            | inr (x, hits) ↦ (
              some x,
              with_node q i after d,
              get_hits draws d i n x (s.nonnull i lt) here hits,
              found (with_node-Sound q s i lt after) (λ w. omega (
                arith,
                total-with_node q s i lt w n after here,
                ap (weigh w) (got ∙ ap (λ o. front o ++ q.contents (q.get n.backend).1) hits),
              )),
            )
            | inl misses ↦
                let kept =
                  with_node-Kept q s i lt n after here
                    (sym (got ∙ ap (λ o. front o ++ q.contents (q.get n.backend).1) misses)) refl in
                let (o, e, gets, how) =
                  search_lem draws (with_node q i after d) kept.sound enough in
                (
                  o,
                  e,
                  get_misses draws d i n (s.nonnull i lt) here misses ∙ gets,
                  Got-from kept how,
                )
          ]

  -- From a segment whose slots point to different nodes, with a null pointer or that of a slot in
  -- use, and a draw more than slots in use: get returns. Where it gives an element, that was in the
  -- segment, and whatever the weights of the elements, the segment weighs less by x. Where it gives
  -- nothing the segment is empty.
  pub get_takes :
      (draws : List ℕ) (d : Dynamic B) (s : Sound q d) (p : ℕ)
      → Owner q d p
      → d.m_segment_length < length draws
      → (o : Option A) × (e : Dynamic B) × (get q draws p d ≡ some (o, e)) × Got d o e
  unfolding Searched get
  get_takes draws d s p (unregistered null) enough =
      let (o, e, searches, how) = search_lem draws d s enough in
      (o, e, if_true _ (==_eq p 0 null) ∙ searches, how)
  get_takes draws d s p (bound i n lt at here up) enough =
      let (o, e, gets, how) = get_slot draws s i n lt (ap d.node_at at ∙ here) enough in
      (o, e, ap (λ a. get q draws a d) (sym at) ∙ gets, how)

  count_some : {d e : Dynamic B} {o : Option A} → Got d o e → (o ≡ none) ↔ (total q (λ x. 1) d ≡ 0)
  count_some (found s less) = (λ e. cc e, λ z. absurd (omega (arith, less (λ x. 1))))
  count_some (nothing kept bare) = (λ e. sym (kept.same (λ x. 1)) ∙ bare (λ x. 1), λ z. refl)

  -- From a segment whose slots point to different nodes, with a null pointer or that of a slot in
  -- use, and a draw more than slots in use: what get returns is nothing exactly when the segment
  -- holds no element.
  pub get_none_iff :
      (draws : List ℕ) (d : Dynamic B) (s : Sound q d) (p : ℕ)
      → Owner q d p
      → d.m_segment_length < length draws
      → (o : Option A) (e : Dynamic B) → get q draws p d ≡ some (o, e)
      → (o ≡ none) ↔ (total q (λ x. 1) d ≡ 0)
  get_none_iff draws d s p owner enough o e gets =
      let (o', e', gets', how) = get_takes draws d s p owner enough in
      let same : o' ≡ o = cc (gets, gets') in
      subst (λ r. (r ≡ none) ↔ (total q (λ x. 1) d ≡ 0)) same (count_some how)
