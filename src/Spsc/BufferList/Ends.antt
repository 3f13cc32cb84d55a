-- ===== src/Spsc/BufferList/Ends.antt =====
-- The destructor of SPSCBufferList: which buffers it deletes, and how many turns its loops take.
use libni.Base.{
  ℕ, suc, ◌≡◌, ◌≢◌, refl, sym, ap, ◌∙◌, arith, List, [], ◌∷◌, Option, none, some, ◌>>=◌, update,
  update_self, update_ne, ==_ne, if_false, ℕ_discrete, length,
}
use libni.Chain.{first_of, rest_of}
use libni.Spsc.Ring
use libni.Spsc.Ring.{Slot, Ring, pointer_slot}
use libni.Spsc.Ring.Inv.{Holds}
use libni.Spsc.Ring.Refine.{pop_refines}
use libni.Spsc.Queue
use libni.Spsc.LinkedList
use libni.Spsc.LinkedList.{LinkedList}
use libni.Spsc.LinkedList.Laws.{Contains, pop_keeps}
use libni.Spsc.BufferList.{BufferList, delete_in_use, delete_cached, destroy}
use libni.Spsc.BufferList.Rings.{Rings}
use libni.Spsc.BufferList.Laws.{Stores}

-- No buffer in use is null.
unfoldable pub NoNull : List (ℕ × ℕ) → Type 0
NoNull [] = Unit
NoNull (u ∷ us) = (u.1 ≢ 0) × NoNull us

module _ {A : Type 0} where
  -- No buffer appears.
  abbrev Fewer : BufferList A → BufferList A → Type 0
  Fewer b e = (a : ℕ) → b.buffers a ≡ none → e.buffers a ≡ none

  unfoldable pub Gone : BufferList A → List ℕ → Type 0
  Gone e [] = Unit
  Gone e (a ∷ more) = (e.buffers a ≡ none) × Gone e more

  unfoldable pub GoneInUse : BufferList A → List (ℕ × ℕ) → Type 0
  GoneInUse e [] = Unit
  GoneInUse e (u ∷ us) = (e.buffers u.1 ≡ none) × GoneInUse e us

  deleted : (f : ℕ → Option (Ring A)) (a c : ℕ) → f c ≡ none → update f a none c ≡ none
  deleted f a c gone = elim (ℕ_discrete a c) [
    | yes e ↦ ap (update f a none) (sym e) ∙ update_self f a none
    | no ne ↦ update_ne f a none c ne ∙ gone
  ]

  delete_in_use_step :
      (left a : ℕ) (b : BufferList A) (l : LinkedList ℕ)
      → LinkedList.pop b.m_in_use ≡ some (some a, l)
      → a ≢ 0
      → delete_in_use (suc left) b
        ≡ delete_in_use left (record b { m_in_use = l; buffers = update b.buffers a none })
  unfolding delete_in_use
  delete_in_use_step left a b l pops full = rw (pops, ◌>>=◌) (rw (==_ne a 0 full) refl)

  delete_in_use_lem :
      (us : List (ℕ × ℕ)) (b : BufferList A) {nodes : List ℕ}
      → Contains b.m_in_use nodes us
      → NoNull us
      → (e : BufferList A) × (delete_in_use (suc (length us)) b ≡ some e)
        × (e.m_cache ≡ b.m_cache)
        × Fewer b e
        × GoneInUse e us
  unfolding delete_in_use GoneInUse NoNull first_of rest_of
  delete_in_use_lem [] b h full =
      let (l, nodes', pops, rest) = pop_keeps [] h in
      (record b { m_in_use = l }, rw (delete_in_use, pops) refl, refl, (λ a gone. gone), tt)
  delete_in_use_lem (u ∷ us) b h full =
      let (l, nodes', pops, rest) = pop_keeps (u ∷ us) h in
      let (e, deletes, cache, fewer, gone) =
        delete_in_use_lem us (record b { m_in_use = l; buffers = update b.buffers u.1 none }) rest
          full.1 in
      (
        e,
        delete_in_use_step (suc (length us)) u.1 b l pops full.0 ∙ deletes,
        cache,
        (λ a none_there. fewer a (deleted b.buffers u.1 a none_there)),
        (fewer u.1 (update_self b.buffers u.1 none), gone),
      )

  delete_step :
      (left c : ℕ) (b : BufferList A)
      → (Ring.pop b.m_cache).0 ≡ c
      → c ≢ 0
      → delete_cached (suc left) b
        ≡ delete_cached left
            (record b { m_cache = (Ring.pop b.m_cache).1; buffers = update b.buffers c none })
  unfolding delete_cached
  delete_step left c b answer full =
      let found = ==_ne (Ring.pop b.m_cache).0 0 (λ z. full (sym answer ∙ z)) in
      rw (delete_cached, found) refl
      ∙ ap
          (λ n.
            delete_cached left
              (record b { m_cache = (Ring.pop b.m_cache).1; buffers = update b.buffers n none }))
          answer

  delete_cached_lem :
      (spare : List ℕ) (b : BufferList A)
      → Holds b.m_cache spare
      → (e : BufferList A) × (delete_cached (suc (length spare)) b ≡ some e)
        × Fewer b e
        × Gone e spare
  unfolding delete_cached Gone Queue.pop
  delete_cached_lem [] b h =
      let (answer, holds) = pop_refines h in
      (b, rw (delete_cached, answer) refl, (λ a gone. gone), tt)
  delete_cached_lem (c ∷ cs) b h =
      let (answer, holds) = pop_refines h in
      let (e, deletes, fewer, gone) =
        delete_cached_lem cs
          (record b { m_cache = (Ring.pop b.m_cache).1; buffers = update b.buffers c none })
          holds in
      (
        e,
        delete_step (suc (length cs)) c b answer (h.full 0 (omega arith)) ∙ deletes,
        (λ a none_there. fewer a (deleted b.buffers c a none_there)),
        (fewer c (update_self b.buffers c none), gone),
      )

  still : (e f : BufferList A) (us : List (ℕ × ℕ)) → Fewer e f → GoneInUse e us → GoneInUse f us
  unfolding GoneInUse
  still e f [] less gone = tt
  still e f (u ∷ us) less gone = (less u.1 gone.0, still e f us less gone.1)

module _ {A : Type 0} ⦃s : Slot A⦄ where
  Rings-NoNull :
      (h : ℕ → Option (Ring A)) (a : ℕ) (us : List (ℕ × ℕ)) (q : List A)
      → Rings h a us q
      → NoNull us
  unfolding Rings NoNull
  Rings-NoNull h a [] q r = tt
  Rings-NoNull h a (u ∷ us) q (r, xs, y, ys, here, holds, parts, full, apart, filled, rest) =
      (full, Rings-NoNull h u.1 us (y ∷ ys) rest)

  -- The destructor ends after a turn for each buffer in use and one more, and one for each in the
  -- cache and one more; the buffer that is read, those in use and those in the cache are then
  -- deleted.
  pub deletes_all :
      {b : BufferList A} {nodes spare : List ℕ} {us : List (ℕ × ℕ)} {q : List A}
      → Stores b nodes spare us q
      → (e : BufferList A) × (destroy (suc (length us)) (suc (length spare)) b ≡ some e)
        × (e.buffers b.m_buf_to_read ≡ none)
        × GoneInUse e us
        × Gone e spare
  unfolding destroy GoneInUse
  deletes_all {b} {nodes} {spare} {us} {q} h =
      let first : BufferList A = record b { buffers = update b.buffers b.m_buf_to_read none } in
      let (e, deletes, cache, fewer, gone) =
        delete_in_use_lem us first h.in_use (Rings-NoNull b.buffers b.m_buf_to_read us q h.rings) in
      let (f, ends, less, bare) = delete_cached_lem spare e (rw cache h.cache) in
      (
        f,
        ap
              (λ (c : BufferList A).
                delete_in_use (suc (length us)) c >>= delete_cached (suc (length spare)))
              (if_false b (==_ne b.m_buf_to_read 0 h.nonzero))
            ∙ ap (λ (o : Option (BufferList A)). o >>= delete_cached (suc (length spare))) deletes
            ∙ ends,
        less b.m_buf_to_read (fewer b.m_buf_to_read (update_self b.buffers b.m_buf_to_read none)),
        still e f us less gone,
        bare,
      )
