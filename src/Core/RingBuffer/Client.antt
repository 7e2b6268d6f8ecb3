-- ===== src/Core/RingBuffer/Client.antt =====
-- A client of the protocol cannot tell the two buffers apart, nor either from the bounded window
-- over the history of its writes.
use ai_quantum.Common.{
  ℕ, zero, suc, ◌-◌, ◌≡◌, refl, ◌∙◌, ap, ap₂, sym, List, [], ◌∷◌, ◌++◌, arith, length, last, min,
  length-last, Outcome, ok, err, ltb, Bool-cases, inl, inr, replicate,
}
use ai_quantum.Common.Int.{ℤ, pos, negsuc}
use ai_quantum.Core.RingBuffer.{
  ValueError, capacity_not_positive, RingBufferProtocol, DequeRingBuffer, NumpyRingBuffer, latest,
  numpy_slice, deque_init, deque_write, deque_read_latest, numpy_init, numpy_write, numpy_read_all,
  numpy_read_latest, deque_protocol, numpy_protocol,
}
use ai_quantum.Core.RingBuffer.Window.{buf-deque_write, maxlen-deque_write}
use ai_quantum.Core.RingBuffer.Numpy.{
  Holds, numpy_write-Holds, numpy_read_all-eq-last, numpy_init-Holds,
}

-- The calls of a client, and what it sees of each.
pub data Call (A : Type 0) : Type 0 where
  write : A → Call A
  read_all : Call A
  read_latest : ℤ → Call A
  capacity : Call A
  len : Call A

pub data Reply (A : Type 0) : Type 0 where
  done : Reply A
  events : List A → Reply A
  count : ℕ → Reply A

module _ {A : Type 0} (p : RingBufferProtocol A) where
  unfoldable pub run : p.Buffer → List (Call A) → List (Reply A)
  run b [] = []
  run b (write x ∷ cs) = done ∷ run (p.write x b) cs
  run b (read_all ∷ cs) = events (p.read_all b) ∷ run b cs
  run b (read_latest n ∷ cs) = events (p.read_latest n b) ∷ run b cs
  run b (capacity ∷ cs) = count (p.capacity b) ∷ run b cs
  run b (len ∷ cs) = count (p.len b) ∷ run b cs

-- The contract: the last `cap` events of an unbounded history.
pub record History (A : Type 0) : Type 0 where
  pub cap : ℕ
  pub all : List A

abbrev pub window_protocol : (A : Type 0) → RingBufferProtocol A
window_protocol A = record {
  Buffer = History A;
  capacity = λ h. h.cap;
  write = λ x h. record h { all = h.all ++ x ∷ [] };
  read_all = λ h. last h.cap h.all;
  read_latest = λ n h. latest n (last h.cap h.all);
  len = λ h. min (length h.all) h.cap;
}

abbrev pub history : {A : Type 0} → ℕ → List A → History A
history cap all = record { cap = cap; all = all }

abbrev fresh : {A : Type 0} → A → ℕ → NumpyRingBuffer A
fresh filler n = record { capacity = suc n; buf = replicate (suc n) filler; head = 0; size = 0 }

module _ {A : Type 0} where
  -- What a session of calls on a new buffer of the given capacity shows, or the exception.
  unfoldable pub deque_session : ℤ → List (Call A) → Outcome ValueError (List (Reply A))
  unfolding run deque_init deque_write deque_read_latest
  deque_session n cs = elim (deque_init {A = A} n) [
    | ok b ↦ ok (run (deque_protocol A) b cs)
    | err e ↦ err e
  ]

  unfoldable pub numpy_session : A → ℤ → List (Call A) → Outcome ValueError (List (Reply A))
  unfolding run numpy_init numpy_write numpy_read_all numpy_read_latest
  numpy_session filler n cs = elim (numpy_init filler n) [
    | ok b ↦ ok (run (numpy_protocol filler) b cs)
    | err e ↦ err e
  ]

  pub window_session : ℤ → List (Call A) → Outcome ValueError (List (Reply A))
  window_session (pos (suc n)) cs = ok (run (window_protocol A) (history (suc n) []) cs)
  window_session _ cs = err capacity_not_positive

  len-deque :
      (b : DequeRingBuffer A) (h : List A)
      → b.buf ≡ last b.maxlen h
      → length b.buf ≡ min (length h) b.maxlen
  len-deque b h e = omega (arith, ap length e, length-last b.maxlen h)

  run-deque :
      (cs : List (Call A)) (b : DequeRingBuffer A) (h : List A)
      → b.buf ≡ last b.maxlen h
      → run (deque_protocol A) b cs ≡ run (window_protocol A) (history b.maxlen h) cs
  unfolding run deque_read_latest
  run-deque [] b h e = refl
  run-deque (write x ∷ cs) b h e =
      ap (λ (r : List (Reply A)). done ∷ r)
        (run-deque cs (deque_write x b) (h ++ x ∷ []) (
            buf-deque_write b h x e
            ∙ ap (λ (k : ℕ). last k (h ++ x ∷ [])) (sym (maxlen-deque_write b x)))
          ∙ ap (λ (k : ℕ). run (window_protocol A) (history k (h ++ x ∷ [])) cs)
              (maxlen-deque_write b x))
  run-deque (read_all ∷ cs) b h e = cc (e, run-deque cs b h e)
  run-deque (read_latest n ∷ cs) b h e =
      ap₂ (λ (a : List A) (r : List (Reply A)). events (latest n a) ∷ r) e (run-deque cs b h e)
  run-deque (capacity ∷ cs) b h e = cc (run-deque cs b h e)
  run-deque (len ∷ cs) b h e = cc (len-deque b h e, run-deque cs b h e)

  -- Slicing off a prefix that is not there is the same as not slicing.
  numpy_slice-eq-latest : (n : ℤ) (xs : List A) → numpy_slice n xs ≡ latest n xs
  numpy_slice-eq-latest (negsuc n) xs = refl
  numpy_slice-eq-latest (pos zero) xs = refl
  numpy_slice-eq-latest (pos (suc n)) xs = elim (Bool-cases (ltb (suc n) (length xs))) [
    | inl more ↦ rw more
    | inr all ↦ let e : length xs - suc n ≡ 0 = ground arith in rw (all, e)
  ]

  run-numpy :
      (filler : A) (cs : List (Call A)) (b : NumpyRingBuffer A) (h : List A)
      → Holds b h
      → run (numpy_protocol filler) b cs ≡ run (window_protocol A) (history b.capacity h) cs
  unfolding run numpy_write numpy_read_latest
  run-numpy filler [] b h v = refl
  run-numpy filler (write x ∷ cs) b h v =
      ap (λ (r : List (Reply A)). done ∷ r)
        (run-numpy filler cs (numpy_write x b) (h ++ x ∷ []) (numpy_write-Holds b h x v))
  run-numpy filler (read_all ∷ cs) b h v =
      cc (numpy_read_all-eq-last filler b h v, run-numpy filler cs b h v)
  run-numpy filler (read_latest n ∷ cs) b h v =
      ap₂ (λ (a : List A) (r : List (Reply A)). events a ∷ r)
        (numpy_slice-eq-latest n (numpy_read_all filler b)
          ∙ ap (latest n) (numpy_read_all-eq-last filler b h v))
        (run-numpy filler cs b h v)
  run-numpy filler (capacity ∷ cs) b h v = cc (run-numpy filler cs b h v)
  run-numpy filler (len ∷ cs) b h v = cc (v.kept, run-numpy filler cs b h v)

  -- For every capacity and every sequence of calls, the deque buffer replies as the window over
  -- the history of writes does; a capacity that is not positive is refused by both.
  pub deque_session_refines :
      (n : ℤ) (cs : List (Call A)) → deque_session n cs ≡ window_session n cs
  unfolding deque_session window_session deque_init
  deque_session_refines (negsuc n) cs = refl
  deque_session_refines (pos zero) cs = refl
  deque_session_refines (pos (suc n)) cs = ap ok (
      run-deque cs (record { maxlen = suc n; buf = [] }) []
        (let z : 0 - suc n ≡ 0 = omega arith in rw z))

  numpy_session_refines :
      (filler : A) (n : ℤ) (cs : List (Call A)) → numpy_session filler n cs ≡ window_session n cs
  unfolding numpy_session window_session numpy_init
  numpy_session_refines filler (negsuc n) cs = refl
  numpy_session_refines filler (pos zero) cs = refl
  numpy_session_refines filler (pos (suc n)) cs =
      ap ok (run-numpy filler cs (fresh filler n) [] (numpy_init-Holds filler n))

  -- For every capacity and every sequence of calls, the numpy buffer has the replies, or the
  -- exception, of the deque buffer, whatever object its unwritten slots hold.
  pub numpy_session-eq-deque :
      (filler : A) (n : ℤ) (cs : List (Call A)) → numpy_session filler n cs ≡ deque_session n cs
  numpy_session-eq-deque filler n cs =
      numpy_session_refines filler n cs ∙ sym (deque_session_refines n cs)
