-- ===== src/Spsc/BufferList/Pop.antt =====
-- Method pop of SPSCBufferList, and the release of a buffer that was read to its end.
use libni.Base.{
  ℕ, ◌≡◌, ◌≢◌, ◌↔◌, refl, sym, ap, subst, ◌∙◌, Bool, true, false, ◌&&◌, List, [], ◌∷◌, ◌++◌, Option,
  none, some, ◌>>=◌, update_ne, ==_ne, ==_eq, if◌then◌else◌,
}
use libni.Chain.{first_of, rest_of}
use libni.Spsc.Ring
use libni.Spsc.Ring.{Slot, Ring, pointer_slot}
use libni.Spsc.Ring.Inv.{Holds}
use libni.Spsc.Ring.Refine.{push_refines, queries_refine}
use libni.Spsc.Queue
use libni.Spsc.LinkedList.Laws.{pop_keeps}
use libni.Spsc.BufferList.{BufferList, empty, pop_read, pop}
use libni.Spsc.BufferList.Rings.{
  last_buffer, Other, Other-last, Rings, Rings-update, Filled, empty_no,
}
use libni.Spsc.BufferList.Laws.{Stores}
use libni.Spsc.BufferList.Turn.{
  and_true, and_false, some_left, pop_here, read_here, pop_nothing, advanced, advance_opens,
  pop_advances, popped_rings,
}

module _ {A : Type 0} ⦃s : Slot A⦄ where
  Popped : (BufferList A → Option (A × BufferList A)) → BufferList A → List A → Type 0
  Popped f b q =
      (e : BufferList A) × (nodes : List ℕ) × (spare : List ℕ) × (us : List (ℕ × ℕ)) × (f b
        ≡ some ((Queue.pop s.empty q).0, e))
      × Stores e nodes spare us (Queue.pop s.empty q).1

  read_lem :
      {b : BufferList A} {nodes spare : List ℕ} {us : List (ℕ × ℕ)} (x : A) (q : List A)
      (h : Stores b nodes spare us (x ∷ q)) (r : Ring A)
      → b.buffers b.m_buf_to_read ≡ some r
      → Ring.empty r ≡ false
      → Popped pop_read b (x ∷ q)
  unfolding Popped Queue.pop
  read_lem {b} {nodes} {spare} {us} x q h r here full =
      let (xs, holds, rings) = popped_rings b.buffers b.m_buf_to_read us r x q h.rings here full in
      (
        _,
        nodes,
        spare,
        us,
        read_here h r here x xs holds,
        record {
          rings = rings;
          write = h.write;
          nonzero = h.nonzero;
          in_use = h.in_use;
          cache = h.cache;
        },
      )

  -- The first ring is empty and another follows.
  pop_moves :
      {b : BufferList A} {nodes spare : List ℕ} {u : ℕ × ℕ} {us : List (ℕ × ℕ)} (y : A)
      (ys : List A) (h : Stores b nodes spare (u ∷ us) (y ∷ ys)) (r : Ring A)
      → b.buffers b.m_buf_to_read ≡ some r
      → Ring.empty r ≡ true
      → u.1 ≢ 0
      → Other b.m_buf_to_read (u ∷ us)
      → Filled b.buffers u.1
      → Rings b.buffers u.1 us (y ∷ ys)
      → Popped pop b (y ∷ ys)
  unfolding Popped Queue.pop first_of rest_of last_buffer Other
  pop_moves {b} {nodes} {spare} {u} {us} y ys h r here bare nonzero apart filled rest =
      let (l, nodes', pops, contains) = pop_keeps (u ∷ us) h.in_use in
      let (answer, holds) = push_refines b.m_buf_to_read h.cache h.nonzero in
      let advances = advance_opens h r here l u.1 nonzero pops in
      let kept =
        Rings-update b.buffers b.m_buf_to_read
          (if (Ring.push b.m_buf_to_read b.m_cache).0 then some (Ring.reset r) else none) u.1 us
          (y ∷ ys) apart.0 apart.1 rest in
      let moved : Stores (advanced h r here l u.1) nodes'
          (Queue.push b.m_cache.size b.m_buf_to_read spare).1 us (y ∷ ys) =
        record {
          rings = kept;
          write = h.write;
          nonzero = nonzero;
          in_use = contains;
          cache = holds;
        } in
      let (e, nodes'', spare', us', pops', stored) =
        read_lem y ys moved filled.0 (update_ne b.buffers b.m_buf_to_read _ u.1 apart.0 ∙ filled.1)
          filled.2 in
      (
        e,
        nodes'',
        spare',
        us',
        pop_advances h r here _ bare
              (λ same. Other-last b.m_buf_to_read u us apart (same ∙ h.write)) advances
            ∙ pops',
        stored,
      )

  -- Other rings follow that which is read.
  pop_parts :
      {b : BufferList A} {nodes spare : List ℕ} {u : ℕ × ℕ} {us : List (ℕ × ℕ)} (xs : List A)
      (y : A) (ys : List A)
      → Stores b nodes spare (u ∷ us) (xs ++ (y ∷ ys))
      → (r : Ring A) → b.buffers b.m_buf_to_read ≡ some r
      → Holds r xs
      → u.1 ≢ 0
      → Other b.m_buf_to_read (u ∷ us)
      → Filled b.buffers u.1
      → Rings b.buffers u.1 us (y ∷ ys)
      → Popped pop b (xs ++ (y ∷ ys))
  unfolding Popped
  pop_parts [] y ys h r here holds nonzero apart filled rest =
      pop_moves y ys h r here ((queries_refine holds).0.1 refl) nonzero apart filled rest
  pop_parts (x ∷ xs) y ys h r here holds nonzero apart filled rest =
      let full = empty_no holds (λ e. cc e) in
      let (e, nodes', spare', us', reads, stored) = read_lem x (xs ++ (y ∷ ys)) h r here full in
      (e, nodes', spare', us', pop_here h r here full ∙ reads, stored)

  -- `pop` returns the oldest element and leaves a list that holds the others; on a list that holds
  -- nothing it returns `Empty` and the list still holds nothing. It never uses a pointer to nothing.
  pub pop-Stores :
      {b : BufferList A} {nodes spare : List ℕ} (us : List (ℕ × ℕ)) (q : List A)
      → Stores b nodes spare us q
      → (e : BufferList A) × (nodes' : List ℕ) × (spare' : List ℕ) × (us' : List (ℕ × ℕ)) × (pop b
          ≡ some ((Queue.pop s.empty q).0, e))
        × Stores e nodes' spare' us' (Queue.pop s.empty q).1
  unfolding Popped Rings Queue.pop last_buffer
  pop-Stores {b} {nodes} {spare} [] [] h =
      let (r, here, holds) = h.rings in
      (b, nodes, spare, [], pop_nothing h r here ((queries_refine holds).0.1 refl) (sym h.write), h)
  pop-Stores [] (x ∷ q) h =
      let (r, here, holds) = h.rings in
      let full = empty_no holds (λ e. cc e) in
      let (e, nodes', spare', us', reads, stored) = read_lem x q h r here full in
      (e, nodes', spare', us', pop_here h r here full ∙ reads, stored)
  pop-Stores {b} {nodes} {spare} (u ∷ us) q h =
      let (r, xs, y, ys, here, holds, parts, nonzero, apart, filled, rest) = h.rings in
      subst (Popped pop b) (sym parts) (
        pop_parts xs y ys (subst (Stores b nodes spare (u ∷ us)) parts h) r here holds nonzero apart
          filled rest)

  -- `empty` returns, and answers true exactly on a list that holds nothing.
  pub empty_answers :
      {b : BufferList A} {nodes spare : List ℕ} (us : List (ℕ × ℕ)) (q : List A)
      → Stores b nodes spare us q
      → (c : Bool) × (empty b ≡ some c) × ((c ≡ true) ↔ (q ≡ []))
  unfolding empty Rings last_buffer
  empty_answers {b} [] q h =
      let (r, here, holds) = h.rings in
      (
        Ring.empty r,
        rw (here, ◌>>=◌)
            (ap some
              (ap (λ c. Ring.empty r && c) (==_eq _ _ (sym h.write)) ∙ and_true (Ring.empty r))),
        (queries_refine holds).0,
      )
  empty_answers {b} (u ∷ us) q h =
      let (r, xs, y, ys, here, holds, parts, nonzero, apart, filled, rest) = h.rings in
      let other =
        ==_ne b.m_buf_to_read b.m_buf_to_write
          (λ e. Other-last b.m_buf_to_read u us apart (e ∙ h.write)) in
      (
        false,
        rw (here, ◌>>=◌) (ap some (ap (λ c. Ring.empty r && c) other ∙ and_false (Ring.empty r))),
        (λ e. cc e, λ e. absurd (some_left xs y ys (sym parts ∙ e))),
      )
