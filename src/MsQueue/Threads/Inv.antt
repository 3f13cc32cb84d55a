-- ===== src/MsQueue/Threads/Inv.antt =====
-- What holds in every state that threads in MSQueue::push reach: the nodes form one chain, and each
-- thread's locals point into it.
use libni.Base.{
  ℕ, ◌≡◌, ◌≢◌, ◌⊎◌, refl, sym, ap, subst, ◌∙◌, List, ◌++◌, Option, none, some, update, update_self,
  update_ne, update_all, append-nil, ℕ_discrete, inl, inr,
}
use libni.Chain.{Apart}
use libni.Chain.Among.{Among}
use libni.TaggedPtr.{TaggedPtr, value}
use libni.TaggedPtr.Laws.{Fits}
use libni.TaggedPtr.Atomic.{single_word}
use libni.MsQueue.{MsQueue, node_of}
use libni.MsQueue.Inv.{address, Holds}
use libni.MsQueue.Threads.{
  Pushing, idle, loading, loaded, read_next, checked, linked, System, start_with,
}

module _ {A : Type 0} where
  -- A node that is not linked yet.
  pub record Waiting (q : MsQueue A) (p : List (ℕ × A)) (node : ℕ) (x : A) : Type 0 where
    pub nonnull : node ≢ 0
    pub fits : Fits node
    pub outside : (node ≢ address q.m_head) × Apart node p
    pub stands : q.heap node ≡ some (node_of x)

  abbrev pub In : MsQueue A → List (ℕ × A) → ℕ → Type 0
  In q p a = Among a (address q.m_head) p

  -- The pointer that was read from a node's `next`.
  abbrev pub Leads : MsQueue A → List (ℕ × A) → TaggedPtr → Type 0
  Leads q p next = value next ≢ 0 → In q p (value next)

  abbrev pub Sound : MsQueue A → List (ℕ × A) → Pushing A → Type 0
  Sound q p idle = Unit
  Sound q p (loading node x) = Waiting q p node x
  Sound q p (loaded node x old) = Waiting q p node x × In q p (value old)
  Sound q p (read_next node x old next) = Waiting q p node x × In q p (value old) × Leads q p next
  Sound q p (checked node x old next) = Waiting q p node x × In q p (value old) × Leads q p next
  Sound q p (linked node x old) = Fits node × In q p node

  -- The node of a call that has not linked it.
  abbrev pub pending : Pushing A → Option ℕ
  pending idle = none
  pending (loading node x) = some node
  pending (loaded node x old) = some node
  pending (read_next node x old next) = some node
  pending (checked node x old next) = some node
  pending (linked node x old) = none

  -- `p` is what the queue held at first.
  pub record Inv (p : List (ℕ × A)) (t : System A) : Type 0 where
    pub holds : Holds t.queue (p ++ t.pushed)
    pub tail : In t.queue (p ++ t.pushed) (address t.queue.m_tail)
    pub sound : (i : ℕ) → Sound t.queue (p ++ t.pushed) (t.thread i)
    pub apart : (i j a : ℕ) → pending (t.thread i) ≡ some a → pending (t.thread j) ≡ some a → i ≡ j

  pub Inv-start :
      (p : List (ℕ × A)) (q : MsQueue A)
      → Holds q p
      → In q p (address q.m_tail)
      → Inv p (start_with q)
  Inv-start p q h m = record {
    holds = subst (Holds q) (sym (append-nil p)) h;
    tail = subst (λ l. In q l (address q.m_tail)) (sym (append-nil p)) m;
    sound = λ i. tt;
    apart = λ i j a e f. cc e;
  }

  -- The call whose node `a` is after thread `i` has moved to `c`.
  abbrev Owns : (ℕ → Pushing A) → ℕ → Pushing A → ℕ → ℕ → Type 0
  Owns f i c a j = ((i ≡ j) × (pending c ≡ some a)) ⊎ ((i ≢ j) × (pending (f j) ≡ some a))

  owner :
      (f : ℕ → Pushing A) (i : ℕ) (c : Pushing A) (a j : ℕ)
      → pending (update f i c j) ≡ some a
      → Owns f i c a j
  owner f i c a j e = elim (ℕ_discrete i j) [
    | yes same ↦ inl (same, ap pending (sym (ap (update f i c) (sym same) ∙ update_self f i c)) ∙ e)
    | no other ↦ inr (other, ap pending (sym (update_ne f i c j other)) ∙ e)
  ]

  -- The node of `c` is that which thread `i` had before, or no other thread's.
  abbrev pub OwnNode : (ℕ → Pushing A) → ℕ → Pushing A → Type 0
  OwnNode f i c = (a j : ℕ) → i ≢ j → pending c ≡ some a → pending (f j) ≢ some a

  -- What a step of thread `i` to `c` has to show.
  pub next-Inv :
      {p : List (ℕ × A)} {t : System A} (i : ℕ) (c : Pushing A) (q : MsQueue A)
      (pushed : List (ℕ × A)) (returned : List A)
      → Inv p t
      → Holds q (p ++ pushed)
      → In q (p ++ pushed) (address q.m_tail)
      → Sound q (p ++ pushed) c
      → ((j : ℕ) → i ≢ j → Sound q (p ++ pushed) (t.thread j))
      → OwnNode t.thread i c
      → Inv p
          (record { queue = q; thread = update t.thread i c; pushed = pushed; returned = returned })
  next-Inv {p} {t} i c q pushed returned inv h m ok others own = record {
    holds = h;
    tail = m;
    sound = update_all (λ j s. Sound q (p ++ pushed) s) t.thread i c ok others;
    apart = λ j k a e f. unique j k a (owner t.thread i c a j e) (owner t.thread i c a k f);
  }
    where
      unique : (j k a : ℕ) → Owns t.thread i c a j → Owns t.thread i c a k → j ≡ k
      unique j k a (inl (e, _)) (inl (f, _)) = sym e ∙ f
      unique j k a (inl (e, new)) (inr (ne, old)) = absurd (own a k ne new old)
      unique j k a (inr (ne, old)) (inl (e, new)) = absurd (own a j ne new old)
      unique j k a (inr (_, e)) (inr (_, f)) = inv.apart j k a e f

  pub kept_node :
      {p : List (ℕ × A)} {t : System A} (i : ℕ) (c : Pushing A)
      → Inv p t
      → pending c ≡ pending (t.thread i)
      → OwnNode t.thread i c
  kept_node i c inv same a j ne e f = ne (inv.apart i j a (sym same ∙ e) f)

  -- A step that only moves thread `i`, with the same node.
  pub moved-Inv :
      {p : List (ℕ × A)} {t : System A} (i : ℕ) (c : Pushing A)
      → Inv p t
      → Sound t.queue (p ++ t.pushed) c
      → pending c ≡ pending (t.thread i)
      → Inv p (record t { thread = update t.thread i c })
  moved-Inv {t} i c inv ok same =
      next-Inv i c t.queue t.pushed t.returned inv inv.holds inv.tail ok (λ j ne. inv.sound j)
        (kept_node i c inv same)

  -- What a change of the queue has to keep for a thread that stands still.
  pub map-Sound :
      (q : MsQueue A) (p : List (ℕ × A)) (q' : MsQueue A) (p' : List (ℕ × A)) (s : Pushing A)
      → ((m : ℕ) (y : A) → pending s ≡ some m → Waiting q p m y → Waiting q' p' m y)
      → ((a : ℕ) → In q p a → In q' p' a)
      → Sound q p s
      → Sound q' p' s
  map-Sound q p q' p' idle keeps stays ok = tt
  map-Sound q p q' p' (loading node x) keeps stays ok = keeps node x refl ok
  map-Sound q p q' p' (loaded node x old) keeps stays ok =
      (keeps node x refl ok.0, stays (value old) ok.1)
  map-Sound q p q' p' (read_next node x old next) keeps stays ok =
      (keeps node x refl ok.0, stays (value old) ok.1, λ ne. stays (value next) (ok.2 ne))
  map-Sound q p q' p' (checked node x old next) keeps stays ok =
      (keeps node x refl ok.0, stays (value old) ok.1, λ ne. stays (value next) (ok.2 ne))
  map-Sound q p q' p' (linked node x old) keeps stays ok = (ok.0, stays node ok.1)
