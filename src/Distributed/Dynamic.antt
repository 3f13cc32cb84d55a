-- ===== src/Distributed/Dynamic.antt =====
-- include/ni/cds/distributed/dynamic.hh: class LLDynamicDistributed, one call at a time, over any
-- backend. A node is its backend and whether its tag is 1; its backend is never null, so the tests
-- for null are dropped. A pointer to a node is an address, and BackendPtr such a pointer. The lock
-- is free whenever a call takes it.
pub mod Segment
pub mod Kept
pub mod Put
pub mod Round
pub mod Get
pub mod Leave
pub mod Ends
use libni.Base.{
  ℕ, zero, suc, ◌+◌, ◌-◌, ◌%◌, ◌≡◌, Bool, true, false, not, ◌&&◌, ◌||◌, List, [], ◌∷◌, ◌++◌, Option,
  none, some, ◌>>=◌, update, get_or, length, ltb, leb, ◌==◌, if◌then◌else◌,
}
use libni.Distributed.Backend.{Backend}

pub record Node (B : Type 0) : Type 0 where
  pub backend : B
  pub alive : Bool

-- `m_segment` gives the pointer in each slot.
pub record Dynamic (B : Type 0) : Type 0 where
  pub m_segment : ℕ → ℕ
  pub m_segment_capacity : ℕ
  pub m_segment_length : ℕ
  pub m_version : ℕ
  pub node_at : ℕ → Option (Node B)

-- How the scan of the segment ends.
pub data Scan (A B : Type 0) : Type 0 where
  taken : A → Dynamic B → Scan A B
  retry : Dynamic B → Scan A B
  passed : (tail_states : List ℕ) → Dynamic B → Scan A B

-- The constructor, where posix_memalign returns `rc`; the result is its exception or the object.
pub data Created (B : Type 0) : Type 0 where
  system_error : (rc : ℕ) → Created B
  created : Dynamic B → Created B

module _ {B : Type 0} where
  unfoldable pub create : (rc capacity : ℕ) → (ℕ → Option (Node B)) → Created B
  create rc capacity nodes =
      if not (rc == 0)
      then system_error rc
      else created (record {
        m_segment = λ _. 0;
        m_segment_capacity = capacity;
        m_segment_length = 0;
        m_version = 0;
        node_at = nodes;
      })

  -- `delete node` and the last pointer into its slot.
  abbrev pub without : (index : ℕ) → Dynamic B → Dynamic B
  without index d =
      let last = d.m_segment_length - 1 in
      record d {
        m_segment = update (update d.m_segment index (d.m_segment last)) last 0;
        m_segment_length = last;
        m_version = d.m_version + 1;
        node_at = update d.node_at (d.m_segment index) none;
      }

  -- The loop of the destructor.
  unfoldable pub destroy_nodes : (left : ℕ) → Dynamic B → Option (Dynamic B)
  destroy_nodes zero d = some d
  destroy_nodes (suc left) d = do
    node ← d.node_at (d.m_segment left)
    destroy_nodes left
        (record d { m_segment_length = left; node_at = update d.node_at (d.m_segment left) none })

  unfoldable pub destroy : Dynamic B → Option (Dynamic B)
  unfolding destroy_nodes
  destroy d = destroy_nodes d.m_segment_length d

module _ {A B : Type 0} (q : Backend B A) where
  unfoldable pub remove_backend : (index : ℕ) → Dynamic B → Option (Dynamic B)
  remove_backend index d = if d.m_segment index == 0 then some d else do
    node ← d.node_at (d.m_segment index)
    some (if node.alive || not (q.empty node.backend) then d else without index d)

  -- The loop of `put` over a full segment: `left` turns from `i` on.
  unfoldable pub sweep : (left i : ℕ) → Dynamic B → Option (Dynamic B)
  sweep zero i d = some d
  sweep (suc left) i d = elim (ltb i d.m_segment_length) [
    | false ↦ some d
    | true ↦ do
      node ← d.node_at (d.m_segment i)
      d' ← if not node.alive && q.empty node.backend then remove_backend i d else some d
      sweep left (i + 1) d'
  ]

  -- `local_backend->backend()->put(element)`
  unfoldable pub put_local : (local_backend : ℕ) → A → Dynamic B → Option (Bool × Dynamic B)
  put_local local_backend x d = do
    node ← d.node_at local_backend
    let (ok, b) = q.put x node.backend
    some (
      ok,
      record d { node_at = update d.node_at local_backend (some (record node { backend = b })) },
    )

  abbrev pub registered : (address : ℕ) → Dynamic B → Dynamic B
  registered address d = record d {
    m_segment = update d.m_segment d.m_segment_length address;
    m_segment_length = d.m_segment_length + 1;
    m_version = d.m_version + 1;
    node_at = update d.node_at address (some (record { backend = q.new; alive = true }));
  }

  -- With the pointer that `local_backend` then is; `address` is where `new` puts a node.
  unfoldable pub put : (address local_backend : ℕ) → A → Dynamic B → Option (Bool × ℕ × Dynamic B)
  unfolding sweep put_local
  put address local_backend x d =
      if not (local_backend == 0)
      then (do (ok, d') ← put_local local_backend x d; some (ok, local_backend, d'))
      else (do
        d' ←
            if leb d.m_segment_capacity d.m_segment_length
            then sweep d.m_segment_length 0 d
            else some d
        if leb d'.m_segment_capacity d'.m_segment_length then some (false, 0, d') else (do
          (ok, d'') ← put_local address x (registered address d')
          some (ok, address, d'')))

  -- The loop of `get` that pops, `left` turns from `i` on.
  unfoldable pub scan : (left i start : ℕ) → List ℕ → Dynamic B → Option (Scan A B)
  scan zero i start states d = some (passed states d)
  scan (suc left) i start states d = do
    let address = d.m_segment ((start + i) % d.m_segment_length)
    node ← d.node_at address
    let (found, state, b) = q.pop node.backend
    let d' = record d { node_at = update d.node_at address (some (record node { backend = b })) }
    elim found [
      | some x ↦ some (taken x d')
      | none ↦ elim node.alive [
        | true ↦ scan left (i + 1) start (states ++ (state ∷ [])) d'
        | false ↦ do d'' ← remove_backend ((start + i) % d.m_segment_length) d'; some (retry d'')
      ]
    ]

  -- The loop of `get` that compares the states: whether it ends with no difference.
  unfoldable pub unchanged : (left i start : ℕ) → List ℕ → Dynamic B → Option Bool
  unchanged zero i start states d = some true
  unchanged (suc left) i start states d = do
    node ← d.node_at (d.m_segment ((start + i) % d.m_segment_length))
    let rest = unchanged left (i + 1) start states d
    if q.tail_state node.backend == get_or states i 0 then rest else some false

  -- The loop of `get` from `RETRY` on, with a random number for each turn; `none` is also their end.
  unfoldable pub search_all : List ℕ → Dynamic B → Option (Option A × Dynamic B)
  search_all [] d = none
  search_all (r ∷ rs) d = elim (d.m_segment_length == 0) [
    | true ↦ some (none, d)
    | false ↦ do
      let start = r % d.m_segment_length
      s ← scan d.m_segment_length 0 start [] d
      elim s [
        | taken x d' ↦ some (some x, d')
        | retry d' ↦ search_all rs d'
        | passed states d' ↦ elim (d'.m_version == d.m_version) [
          | false ↦ search_all rs d'
          | true ↦ do
            same ← unchanged d'.m_segment_length 0 start states d'
            elim same [ true ↦ some (none, d') | false ↦ search_all rs d' ]
        ]
      ]
  ]

  unfoldable pub get : List ℕ → (local_backend : ℕ) → Dynamic B → Option (Option A × Dynamic B)
  unfolding search_all
  get draws local_backend d = if local_backend == 0 then search_all draws d else do
    node ← d.node_at local_backend
    let (found, b) = q.get node.backend
    let d' = record d {
      node_at = update d.node_at local_backend (some (record node { backend = b }));
    }
    elim found [ some x ↦ some (some x, d') | none ↦ search_all draws d' ]

  -- The loop of `deregister_thread` that looks for the node.
  unfoldable pub remove_node : (left i : ℕ) → (node : ℕ) → Dynamic B → Option (Dynamic B)
  remove_node zero i node d = some d
  remove_node (suc left) i node d =
      let rest = remove_node left (i + 1) node d in
      if d.m_segment i == node then remove_backend i d else rest

  -- The pointer is null afterwards.
  unfoldable pub deregister_thread : (local_backend : ℕ) → Dynamic B → Option (ℕ × Dynamic B)
  unfolding remove_node
  deregister_thread local_backend d = if local_backend == 0 then some (0, d) else do
    node ← d.node_at local_backend
    let d' = record d {
      node_at = update d.node_at local_backend (some (record node { alive = false }));
    }
    if not (q.empty node.backend)
        then some (0, d')
        else (do d'' ← remove_node d'.m_segment_length 0 local_backend d'; some (0, d''))
