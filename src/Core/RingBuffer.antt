-- ===== src/Core/RingBuffer.antt =====
-- core/ring_buffer.py: the protocol, the `deque` buffer and the numpy buffer.
-- An event is any Python object; both buffers keep references, so they only move events.
pub mod Window
pub mod Numpy
pub mod Client
pub mod Lock
mod Tests
use ai_quantum.Common.{
  ℕ, zero, suc, ◌+◌, ◌%◌, Bool, List, [], ◌∷◌, ◌++◌, ltb, leb, ◌==◌, if◌then◌else◌, length, get_or,
  set, take, drop, replicate, tabulate, last, Outcome, ok, err,
}
use ai_quantum.Common.Int.{ℤ, pos, negsuc}

-- The exception that the constructors raise.
pub data ValueError : Type 0 where
  capacity_not_positive : ValueError

-- `RingBufferProtocol`, with the state explicit.
pub record RingBufferProtocol (A : Type 0) : Type 1 where
  pub Buffer : Type 0
  pub capacity : Buffer → ℕ
  pub write : A → Buffer → Buffer
  pub read_all : Buffer → List A
  pub read_latest : ℤ → Buffer → List A
  pub len : Buffer → ℕ

-- `all_events[-n:]` for `n > 0`, and `[]` otherwise.
abbrev pub latest {ℓ} : {A : Type ℓ} → ℤ → List A → List A
latest (negsuc _) xs = []
latest (pos zero) xs = []
latest (pos (suc n)) xs = last (suc n) xs

-- `DequeRingBuffer`: `collections.deque(maxlen=capacity)`.
pub record DequeRingBuffer (A : Type 0) : Type 0 where
  pub maxlen : ℕ
  pub buf : List A

module _ {A : Type 0} where
  pub deque_init : ℤ → Outcome ValueError (DequeRingBuffer A)
  deque_init (pos (suc n)) = ok (record { maxlen = suc n; buf = [] })
  deque_init _ = err capacity_not_positive

  -- `deque.append` drops from the left what passes `maxlen`.
  pub deque_write : A → DequeRingBuffer A → DequeRingBuffer A
  deque_write event b =
      if ltb b.maxlen (length (b.buf ++ event ∷ []))
      then record b { buf = drop 1 (b.buf ++ event ∷ []) }
      else record b { buf = b.buf ++ event ∷ [] }

  pub deque_read_latest : ℤ → DequeRingBuffer A → List A
  deque_read_latest n b = latest n b.buf

-- `NumpyRingBuffer`. `np.empty(capacity, dtype=object)` is filled with Python's `None`, which is
-- an object like any other: the section's `filler`.
pub record NumpyRingBuffer (A : Type 0) : Type 0 where
  pub capacity : ℕ
  pub buf : List A
  pub head : ℕ
  pub size : ℕ

module _ {A : Type 0} where
  pub numpy_init : A → ℤ → Outcome ValueError (NumpyRingBuffer A)
  numpy_init filler (pos (suc n)) =
      ok (record { capacity = suc n; buf = replicate (suc n) filler; head = 0; size = 0 })
  numpy_init filler _ = err capacity_not_positive

  pub numpy_write : A → NumpyRingBuffer A → NumpyRingBuffer A
  numpy_write event b = record b {
    buf = set b.buf (b.head % b.capacity) event;
    head = b.head + 1;
    size = if ltb b.size b.capacity then b.size + 1 else b.size;
  }

  -- A read of a slot: `Numpy.reads_in_bounds` shows that the filler argument is never taken.
  pub numpy_read_all : A → NumpyRingBuffer A → List A
  numpy_read_all filler b =
      if b.size == 0
      then []
      else if ltb b.size b.capacity
      then take b.size b.buf
      else tabulate b.capacity (λ i. get_or b.buf ((b.head % b.capacity + i) % b.capacity) filler)

  -- `all_events[-n:] if n < len(all_events) else all_events`.
  abbrev numpy_slice : ℤ → List A → List A
  numpy_slice (negsuc _) xs = []
  numpy_slice (pos zero) xs = []
  numpy_slice (pos (suc n)) xs = if ltb (suc n) (length xs) then last (suc n) xs else xs

  pub numpy_read_latest : A → ℤ → NumpyRingBuffer A → List A
  numpy_read_latest filler n b = numpy_slice n (numpy_read_all filler b)

-- The two classes as implementations of the protocol.
abbrev pub deque_protocol : (A : Type 0) → RingBufferProtocol A
deque_protocol A = record {
  Buffer = DequeRingBuffer A;
  capacity = λ b. b.maxlen;
  write = deque_write;
  read_all = λ b. b.buf;
  read_latest = deque_read_latest;
  len = λ b. length b.buf;
}

abbrev pub numpy_protocol : {A : Type 0} → A → RingBufferProtocol A
numpy_protocol {A} filler = record {
  Buffer = NumpyRingBuffer A;
  capacity = λ b. b.capacity;
  write = numpy_write;
  read_all = numpy_read_all filler;
  read_latest = numpy_read_latest filler;
  len = λ b. b.size;
}
