-- ===== src/Distributed/Dynamic/Put.antt =====
-- Method put: where an element goes, and that nothing else changes.
use libni.Base.{
  weigh, weigh-append, sum_to, sum_to_ext, sum_to_next, ℕ, ◌+◌, ◌<◌, ◌≤◌, ◌≡◌, ◌≢◌, refl, sym, ap,
  subst, ◌∙◌, arith, Bool, true, false, not, [], ◌∷◌, ◌++◌, Option, none, some, ◌>>=◌, update_self,
  update_ne, ==_ne, leb, leb-true, leb-false, if◌then◌else◌, if_true, if_false, ℕ_discrete,
  Bool-cases, inl, inr,
}
use libni.Distributed.Backend.{Backend}
use libni.Distributed.Dynamic.{Node, Dynamic, sweep, registered, put_local, put}
use libni.Distributed.Dynamic.Segment.{
  weight_at, total, Sound, with_node, with_node-Sound, total-with_node,
}
use libni.Distributed.Dynamic.Kept.{Kept, Kept-same, sweep-Kept}

module _ {A B : Type 0} (q : Backend B A) where
  module _ {d : Dynamic B} (s : Sound q d) (address : ℕ) (nonzero : address ≢ 0)
      (fresh : d.node_at address ≡ none) where
    apart : (i : ℕ) → i < d.m_segment_length → address ≢ d.m_segment i
    apart i lt e = cc (fresh, e, (s.stands i lt).1)

    new_node : Node B
    new_node = record { backend = q.new; alive = true }

    old_slot :
        (i : ℕ) → i < d.m_segment_length → (registered q address d).m_segment i ≡ d.m_segment i
    old_slot i lt = update_ne d.m_segment d.m_segment_length address i (λ e. omega arith)

    new_slot : (registered q address d).m_segment d.m_segment_length ≡ address
    new_slot = update_self d.m_segment d.m_segment_length address

    seg_new : (i : ℕ) → i ≡ d.m_segment_length → (registered q address d).m_segment i ≡ address
    seg_new i e = ap (registered q address d).m_segment e ∙ new_slot

    old_node :
        (i : ℕ) (lt : i < d.m_segment_length)
        → (registered q address d).node_at ((registered q address d).m_segment i)
          ≡ d.node_at (d.m_segment i)
    old_node i lt =
        ap (registered q address d).node_at (old_slot i lt)
        ∙ update_ne d.node_at address (some (record { backend = q.new; alive = true }))
            (d.m_segment i) (apart i lt)

    at_new :
        (registered q address d).node_at ((registered q address d).m_segment d.m_segment_length)
        ≡ some (record { backend = q.new; alive = true })
    at_new =
        ap (registered q address d).node_at new_slot
        ∙ update_self d.node_at address (some (record { backend = q.new; alive = true }))

    registered-Sound : d.m_segment_length < d.m_segment_capacity → Sound q (registered q address d)
    registered-Sound room = record {
      within = omega arith;
      nonnull = λ i lt. elim (ℕ_discrete i d.m_segment_length) [
        | yes e ↦ λ z. nonzero (sym new_slot ∙ ap (registered q address d).m_segment (sym e) ∙ z)
        | no ne ↦ λ z. s.nonnull i (omega arith) (sym (old_slot i (omega arith)) ∙ z)
      ];
      stands = λ i lt. elim (ℕ_discrete i d.m_segment_length) [
        | yes e ↦ (
          _,
          ap (λ j. (registered q address d).node_at ((registered q address d).m_segment j)) e
              ∙ at_new,
        )
        | no ne ↦
            ((s.stands i (omega arith)).0, old_node i (omega arith) ∙ (s.stands i (omega arith)).1)
      ];
      distinct = λ i j below above e. elim (ℕ_discrete i d.m_segment_length) [
        | yes i_new ↦ elim (ℕ_discrete j d.m_segment_length) [
          | yes j_new ↦ omega arith
          | no j_old ↦
              absurd (apart j (omega arith) (sym (seg_new i i_new) ∙ e ∙ old_slot j (omega arith)))
        ]
        | no i_old ↦ elim (ℕ_discrete j d.m_segment_length) [
          | yes j_new ↦
              absurd
                (apart i (omega arith) (sym (seg_new j j_new) ∙ sym e ∙ old_slot i (omega arith)))
          | no j_old ↦
              s.distinct i j (omega arith) (omega arith)
                (sym (old_slot i (omega arith)) ∙ e ∙ old_slot j (omega arith))
        ]
      ];
    }

    registered-total : (w : A → ℕ) → total q w (registered q address d) ≡ total q w d
    unfolding total sum_to weight_at weigh
    registered-total w = omega (
      arith,
      sum_to_next d.m_segment_length (λ j.
          weight_at q w ((registered q address d).node_at ((registered q address d).m_segment j))),
      sum_to_ext d.m_segment_length _ _ (λ j lt. ap (weight_at q w) (old_node j lt)),
      ap (weight_at q w) at_new,
      ap (weigh w) q.new_lem,
    )

  module _ {d : Dynamic B} (s : Sound q d) (i : ℕ) (lt : i < d.m_segment_length) (n : Node B)
      (here : d.node_at (d.m_segment i) ≡ some n) (x : A) where
    filled : Node B
    filled = record n { backend = (q.put x n.backend).1 }

    put_opens :
        put_local q (d.m_segment i) x d
        ≡ some
            ((q.put x n.backend).0, with_node q i (record n { backend = (q.put x n.backend).1 }) d)
    unfolding put_local
    put_opens =
        ap
          (λ o. o >>= (λ m. some (
            (q.put x m.backend).0,
            with_node q i (record m { backend = (q.put x m.backend).1 }) d,
          )))
          here

    put_weight :
        (w : A → ℕ)
        → weigh w (q.contents (q.put x n.backend).1)
          ≡ weigh w (q.contents n.backend) + (if (q.put x n.backend).0 then w x else 0)
    unfolding weigh
    put_weight w = ap (weigh w) (q.put_lem x n.backend) ∙ branches (q.put x n.backend).0
      where
        branches :
            (c : Bool)
            → weigh w (if c then q.contents n.backend ++ (x ∷ []) else q.contents n.backend)
              ≡ weigh w (q.contents n.backend) + (if c then w x else 0)
        branches true = omega (arith, weigh-append w (q.contents n.backend) (x ∷ []))
        branches false = omega arith

    put_total :
        (w : A → ℕ)
        → total q w (with_node q i (record n { backend = (q.put x n.backend).1 }) d)
          ≡ total q w d + (if (q.put x n.backend).0 then w x else 0)
    put_total w = omega (
      arith,
      total-with_node q s i lt w n (record n { backend = (q.put x n.backend).1 }) here,
      put_weight w,
    )

  -- The pointer of a thread: null, or to the node of a slot in use that is alive.
  pub data Owner (d : Dynamic B) (p : ℕ) : Type 0 where
    unregistered : p ≡ 0 → Owner d p
    bound :
        (i : ℕ) (n : Node B)
        → i < d.m_segment_length
        → d.m_segment i ≡ p
        → d.node_at p ≡ some n
        → n.alive ≡ true
        → Owner d p

  -- Who answered: the full segment, or the backend that `p` points to, which then holds the rest.
  pub data Verdict (x : A) (ok : Bool) (p : ℕ) (e : Dynamic B) : Type 0 where
    full : ok ≡ false → p ≡ 0 → e.m_segment_capacity ≤ e.m_segment_length → Verdict x ok p e
    asked :
        (b : B) (n : Node B)
        → ok ≡ (q.put x b).0
        → e.node_at p ≡ some n
        → n.backend ≡ (q.put x b).1
        → Verdict x ok p e

  -- What `put` promises from `d`.
  pub record PutInto (d : Dynamic B) (x : A) (ok : Bool) (p : ℕ) (e : Dynamic B) : Type 0 where
    pub sound : Sound q e
    pub more : (w : A → ℕ) → total q w e ≡ total q w d + (if ok then w x else 0)
    pub owner : Owner e p
    pub verdict : Verdict x ok p e

  put_slot :
      {d : Dynamic B} (s : Sound q d) (i : ℕ) (n : Node B) (lt : i < d.m_segment_length)
      → d.node_at (d.m_segment i) ≡ some n
      → n.alive ≡ true
      → (x : A)
      → (ok : Bool) × (e : Dynamic B) × (put_local q (d.m_segment i) x d ≡ some (ok, e))
        × PutInto d x ok (d.m_segment i) e
  put_slot {d} s i n lt here up x = (
    _,
    _,
    put_opens s i lt n here x,
    record {
      sound = with_node-Sound q s i lt (record n { backend = (q.put x n.backend).1 });
      more = put_total s i lt n here x;
      owner =
          bound i (record n { backend = (q.put x n.backend).1 }) lt refl
            (update_self d.node_at (d.m_segment i)
              (some (record n { backend = (q.put x n.backend).1 })))
            up;
      verdict =
          asked n.backend _ refl
            (update_self d.node_at (d.m_segment i)
              (some (record n { backend = (q.put x n.backend).1 })))
            refl;
    },
  )

  put_owned :
      {d : Dynamic B} (s : Sound q d) (p i : ℕ) (n : Node B) (lt : i < d.m_segment_length)
      → d.m_segment i ≡ p
      → d.node_at p ≡ some n
      → n.alive ≡ true
      → (x : A)
      → (ok : Bool) × (e : Dynamic B) × (put_local q p x d ≡ some (ok, e)) × PutInto d x ok p e
  put_owned {d} s p i n lt at here up x =
      let (ok, e, puts, into) = put_slot s i n lt (ap d.node_at at ∙ here) up x in
      (ok, e, ap (λ a. put_local q a x d) (sym at) ∙ puts, subst (λ a. PutInto d x ok a e) at into)

  put_bound :
      (d : Dynamic B) (s : Sound q d) (address p : ℕ) (x : A)
      → p ≢ 0
      → (ok : Bool) (e : Dynamic B) → put_local q p x d ≡ some (ok, e)
      → put q address p x d ≡ some (ok, p, e)
  unfolding put
  put_bound d s address p x nonzero ok e puts =
      if_true _ (ap not (==_ne p 0 nonzero)) ∙ ap (λ o. o >>= (λ r. some (r.0, p, r.1))) puts

  -- The rest of `put` with a null pointer, after the sweep.
  pub enrol : (address : ℕ) → A → Dynamic B → Option (Bool × ℕ × Dynamic B)
  enrol address x e =
      if leb e.m_segment_capacity e.m_segment_length
      then some (false, 0, e)
      else (do (ok, f) ← put_local q address x (registered q address e); some (ok, address, f))

  put_null :
      (d : Dynamic B) (address : ℕ) (x : A)
      → put q address 0 x d ≡ (
          (if leb d.m_segment_capacity d.m_segment_length
            then sweep q d.m_segment_length 0 d
            else some d)
          >>= enrol address x)
  unfolding put enrol
  put_null d address x = refl

  swept :
      (d : Dynamic B) (s : Sound q d) (c : Bool)
      → (e : Dynamic B) × ((if c then sweep q d.m_segment_length 0 d else some d) ≡ some e)
        × Kept q d e
  swept d s true = sweep-Kept q d.m_segment_length 0 d s
  swept d s false = (d, refl, Kept-same q s)

  enrol_lem :
      {e : Dynamic B} (s : Sound q e) (address : ℕ) (nonzero : address ≢ 0)
      (fresh : e.node_at address ≡ none) (x : A)
      → (ok : Bool) × (p : ℕ) × (f : Dynamic B) × (enrol address x e ≡ some (ok, p, f))
        × PutInto e x ok p f
  unfolding enrol new_node
  enrol_lem {e} s address nonzero fresh x =
      elim (Bool-cases (leb e.m_segment_capacity e.m_segment_length)) [
        | inl full_up ↦ (
          false,
          0,
          e,
          if_true _ full_up,
          record {
            sound = s;
            more = λ w. omega arith;
            owner = unregistered refl;
            verdict = full refl refl (leb-true _ _ full_up);
          },
        )
        | inr room ↦
            let (ok, f, puts, into) =
              put_owned (registered-Sound s address nonzero fresh (leb-false _ _ room)) address
                e.m_segment_length _ (omega arith) (new_slot s address nonzero fresh)
                (update_self e.node_at address (some (new_node s address nonzero fresh))) refl x in
            (
              ok,
              address,
              f,
              if_false _ room ∙ ap (λ o. o >>= (λ r. some (r.0, address, r.1))) puts,
              record {
                sound = into.sound;
                more = λ w.
                    into.more w
                    ∙ ap (λ (t : ℕ). t + (if ok then w x else 0))
                        (registered-total s address nonzero fresh w);
                owner = into.owner;
                verdict = into.verdict;
              },
            )
      ]

  -- From a segment whose slots point to different nodes, with a null pointer or that of a slot in
  -- use, and a free address: put returns; whatever the weights of the elements, the segment then
  -- weighs as much as before, and x more when put returns true; the new pointer is again null or
  -- that of a slot in use.
  pub put_adds :
      (d : Dynamic B) (s : Sound q d) (address p : ℕ) (x : A)
      → address ≢ 0
      → d.node_at address ≡ none
      → Owner d p
      → (ok : Bool) × (p' : ℕ) × (e : Dynamic B) × (put q address p x d ≡ some (ok, p', e))
        × PutInto d x ok p' e
  put_adds d s address p x nonzero fresh (unregistered null) =
      let (e, sweeps, kept) = swept d s (leb d.m_segment_capacity d.m_segment_length) in
      let (ok, p', f, puts, into) =
        enrol_lem kept.sound address nonzero (kept.absent address fresh) x in
      (
        ok,
        p',
        f,
        ap (λ a. put q address a x d) null
            ∙ put_null d address x
            ∙ ap (λ o. o >>= enrol address x) sweeps
            ∙ puts,
        record {
          sound = into.sound;
          more = λ w. into.more w ∙ ap (λ (t : ℕ). t + (if ok then w x else 0)) (kept.same w);
          owner = into.owner;
          verdict = into.verdict;
        },
      )
  put_adds d s address p x nonzero fresh (bound i n lt at here up) =
      let (ok, e, puts, into) = put_owned s p i n lt at here up x in
      (ok, p, e, put_bound d s address p x (λ z. s.nonnull i lt (at ∙ z)) ok e puts, into)
