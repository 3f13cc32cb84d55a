-- ===== src/TaggedPtr/Atomic.antt =====
-- include/ni/tagged_ptr.hh: class AtomicTaggedPtr, one atomic word that holds a tagged pointer of
-- either class. Each operation is one access of the std::atomic, in a single order of all accesses;
-- the memory orders and the `volatile` overloads, which have the same bodies, are dropped.
pub mod Laws
use libni.Base.{ℕ, ◌≡◌, ◌↔◌, refl, Bool, true, false, not, ◌==◌, ==_iff, if◌then◌else◌}
use libni.TaggedPtr
use libni.TaggedPtr.{TaggedPtr}
use libni.TaggedPtr.Double
use libni.TaggedPtr.Double.{DoubleTagPtr}

-- What AtomicTaggedPtr asks of its template parameter.
pub record Word (T : Type 0) : Type 0 where
  pub raw_value : T → ℕ
  pub of_raw : ℕ → T
  pub equal : T → T → Bool
  pub of_raw-raw_value : (p : T) → of_raw (raw_value p) ≡ p
  pub raw_value-of_raw : (n : ℕ) → raw_value (of_raw n) ≡ n
  pub equal_lem : (p q : T) → equal p q ≡ (raw_value p == raw_value q)

pub single_equal : (p q : TaggedPtr) → TaggedPtr.equal p q ≡ (p.raw_value == q.raw_value)
unfolding TaggedPtr.equal
single_equal p q = refl

pub double_equal : (p q : DoubleTagPtr) → Double.equal p q ≡ (p.raw_value == q.raw_value)
unfolding Double.equal
double_equal p q = refl

pub single_of_raw : (p : TaggedPtr) → TaggedPtr.of_raw p.raw_value ≡ p
unfolding TaggedPtr.of_raw
single_of_raw p = refl

pub double_of_raw : (p : DoubleTagPtr) → Double.of_raw p.raw_value ≡ p
unfolding Double.of_raw
double_of_raw p = refl

pub single_raw : (n : ℕ) → (TaggedPtr.of_raw n).raw_value ≡ n
unfolding TaggedPtr.of_raw
single_raw n = refl

pub double_raw : (n : ℕ) → (Double.of_raw n).raw_value ≡ n
unfolding Double.of_raw
double_raw n = refl

instance abbrev pub single_word : Word TaggedPtr
single_word = record {
  raw_value = λ p. p.raw_value;
  of_raw = TaggedPtr.of_raw;
  equal = TaggedPtr.equal;
  of_raw-raw_value = single_of_raw;
  raw_value-of_raw = single_raw;
  equal_lem = single_equal;
}

instance abbrev pub double_word : Word DoubleTagPtr
double_word = record {
  raw_value = λ p. p.raw_value;
  of_raw = Double.of_raw;
  equal = Double.equal;
  of_raw-raw_value = double_of_raw;
  raw_value-of_raw = double_raw;
  equal_lem = double_equal;
}

pub record AtomicTaggedPtr : Type 0 where
  pub m_raw_value : ℕ

-- `AtomicTaggedPtr()`
unfoldable pub default : AtomicTaggedPtr
default = record { m_raw_value = 0 }

module _ {T : Type 0} ⦃w : Word T⦄ where
  -- `AtomicTaggedPtr(TaggedPtr tagged_ptr)`
  unfoldable pub make : T → AtomicTaggedPtr
  make p = record { m_raw_value = w.raw_value p }

  -- `operator=`, for its effect: the function ends with no `return`
  unfoldable pub assign : T → AtomicTaggedPtr → AtomicTaggedPtr
  assign p a = record { m_raw_value = w.raw_value p }

  unfoldable pub store : T → AtomicTaggedPtr → AtomicTaggedPtr
  store desired a = record { m_raw_value = w.raw_value desired }

  unfoldable pub load : AtomicTaggedPtr → T
  load a = w.of_raw a.m_raw_value

  -- the conversion operator
  unfoldable pub convert : AtomicTaggedPtr → T
  unfolding load
  convert a = load a

  unfoldable pub exchange : T → AtomicTaggedPtr → T × AtomicTaggedPtr
  exchange desired a = (w.of_raw a.m_raw_value, record { m_raw_value = w.raw_value desired })

  -- The result, the new value of the argument `expected`, and the new state.
  unfoldable pub compare_exchange_strong : T → T → AtomicTaggedPtr → Bool × T × AtomicTaggedPtr
  compare_exchange_strong expected desired a =
      if a.m_raw_value == w.raw_value expected
      then (true, expected, record { m_raw_value = w.raw_value desired })
      else (false, w.of_raw a.m_raw_value, a)

  -- The weak form may fail where the strong one succeeds, `spurious`: it then writes back the word
  -- that it read.
  unfoldable pub compare_exchange_weak :
      (spurious : Bool) → T → T → AtomicTaggedPtr → Bool × T × AtomicTaggedPtr
  unfolding compare_exchange_strong
  compare_exchange_weak spurious expected desired a =
      if spurious
      then (false, w.of_raw a.m_raw_value, a)
      else compare_exchange_strong expected desired a

  -- `operator==` and `operator!=`
  unfoldable pub equal : AtomicTaggedPtr → T → Bool
  unfolding load
  equal a other = w.equal (load a) other

  unfoldable pub differ : AtomicTaggedPtr → T → Bool
  unfolding equal
  differ a other = not (equal a other)
