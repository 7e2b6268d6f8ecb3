-- ===== src/Core/RingBuffer/Numpy.antt =====
-- The numpy buffer against the history of its writes: each slot that still counts holds the event
-- that was written at its index, so that reading walks the newest events in order.
use native.Mathlib.Nat.{mod-eq_of_lt, mod-add-mod, mod-eq-sub-mod, mod-lt}
use native.Mathlib.Decide.{dec_lt}
use ai_quantum.Common.{
  ℕ, suc, ◌+◌, ◌-◌, ◌%◌, ◌≤◌, ◌<◌, ◌≡◌, ◌≢◌, refl, sym, ◌∙◌, ap, List, [], ◌∷◌, ◌++◌, arith, length,
  get_elem?, get_or, set, take, last, tabulate, replicate, min, length-append, length-set,
  length-replicate, length-tabulate, length-last, get_elem?-set_self, get_elem?-set_ne,
  get_elem?-append_left, get_elem?-append_last, get_elem?-drop, get_elem?-take, get_elem?-tabulate,
  get_elem?-eq-get_or, list_ext, length-take, some, ltb, ◌==◌, inl, inr, Bool-cases, false,
}
use ai_quantum.Core.RingBuffer.{NumpyRingBuffer, numpy_write, numpy_read_all}

-- Two indices less than a round apart have different slots.
mod-ne : (i d cap : ℕ) → 0 < d → d < cap → i % cap ≢ (i + d) % cap
mod-ne i d cap hd hc e = elim (dec_lt (i % cap + d) cap) [
  | yes p ↦ omega (arith, mod-eq_of_lt p, mod-add-mod i cap d)
  | no p ↦ omega (
    arith,
    mod-add-mod i cap d,
    mod-lt i {m = cap} (omega arith),
    mod-eq-sub-mod {n = i % cap + d} {m = cap} (omega arith),
    mod-eq_of_lt {n = i % cap + d - cap} {m = cap}
        (omega (arith, mod-lt i {m = cap} (omega arith))),
  )
]

module _ {A : Type 0} where
  pub record Holds (b : NumpyRingBuffer A) (h : List A) : Type 0 where
    pub room : 0 < b.capacity
    pub slots : length b.buf ≡ b.capacity
    pub written : b.head ≡ length h
    pub kept : b.size ≡ min (length h) b.capacity
    pub at :
        (i : ℕ)
        → i < length h
        → length h ≤ i + b.capacity
        → get_elem? b.buf (i % b.capacity) ≡ get_elem? h i

  -- The new event goes to its slot and leaves the slots of the others alone.
  at-numpy_write :
      (b : NumpyRingBuffer A) (h : List A) (x : A)
      → Holds b h
      → (i : ℕ) → i < length (h ++ x ∷ [])
      → length (h ++ x ∷ []) ≤ i + b.capacity
      → get_elem? (set b.buf (b.head % b.capacity) x) (i % b.capacity) ≡ get_elem? (h ++ x ∷ []) i
  at-numpy_write b h x v i hi hc = elim (dec_lt i (length h)) [
    | yes p ↦
        let apart : b.head % b.capacity ≢ i % b.capacity = λ e.
          mod-ne i (length h - i) b.capacity (omega arith) (omega (arith, length-append h (x ∷ [])))
            (sym e ∙ ap (λ (k : ℕ). k % b.capacity) (omega (arith, v.written))) in
        get_elem?-set_ne b.buf (b.head % b.capacity) (i % b.capacity) x apart
        ∙ v.at i p (omega (arith, length-append h (x ∷ [])))
        ∙ sym (get_elem?-append_left h (x ∷ []) i p)
    | no p ↦
        let e : i ≡ length h = omega (arith, length-append h (x ∷ [])) in
        rw (e, v.written, get_elem?-append_last h x)
          (get_elem?-set_self b.buf (length h % b.capacity) x
            (omega (arith, v.slots, mod-lt (length h) v.room)))
  ]

  pub numpy_write-Holds :
      (b : NumpyRingBuffer A) (h : List A) (x : A)
      → Holds b h
      → Holds (numpy_write x b) (h ++ x ∷ [])
  unfolding numpy_write
  numpy_write-Holds b h x v = record {
    room = v.room;
    slots = length-set b.buf (b.head % b.capacity) x ∙ v.slots;
    written = omega (arith, v.written, length-append h (x ∷ []));
    kept = ground (arith, v.kept, length-append h (x ∷ []));
    at = at-numpy_write b h x v;
  }

  -- A full buffer is read at indices below its capacity, so the read never leaves the storage.
  pub reads_in_bounds :
      (b : NumpyRingBuffer A) (h : List A)
      → Holds b h
      → (i : ℕ) → (b.head % b.capacity + i) % b.capacity < length b.buf
  reads_in_bounds b h v i = omega (arith, v.slots, mod-lt (b.head % b.capacity + i) v.room)

  full-elem :
      (filler : A) (b : NumpyRingBuffer A) (h : List A)
      → Holds b h
      → b.capacity ≤ length h
      → (i : ℕ) → i < b.capacity
      → some (get_or b.buf ((b.head % b.capacity + i) % b.capacity) filler)
        ≡ get_elem? (last b.capacity h) i
  full-elem filler b h v f i hi =
      sym (
        get_elem?-eq-get_or b.buf ((b.head % b.capacity + i) % b.capacity) filler
          (reads_in_bounds b h v i))
      ∙ ap (get_elem? b.buf) slot
      ∙ v.at (length h - b.capacity + i) (omega arith) (omega arith)
      ∙ sym (get_elem?-drop (length h - b.capacity) i h)
    where
      slot : (b.head % b.capacity + i) % b.capacity ≡ (length h - b.capacity + i) % b.capacity
      slot =
          mod-add-mod b.head b.capacity i
          ∙ mod-eq-sub-mod {n = b.head + i} {m = b.capacity} (omega (arith, v.written))
          ∙ ap (λ (k : ℕ). k % b.capacity) (omega (arith, v.written))

  read-full :
      (filler : A) (b : NumpyRingBuffer A) (h : List A)
      → Holds b h
      → b.capacity ≤ length h
      → tabulate b.capacity (λ i. get_or b.buf ((b.head % b.capacity + i) % b.capacity) filler)
        ≡ last b.capacity h
  read-full filler b h v f =
      list_ext _ _ (omega (arith, length-tabulate b.capacity slot_value, length-last b.capacity h))
        λ i hi.
          let hi' : i < b.capacity = omega (arith, length-tabulate b.capacity slot_value) in
          get_elem?-tabulate b.capacity slot_value i hi' ∙ full-elem filler b h v f i hi'
    where
      slot_value : ℕ → A
      slot_value i = get_or b.buf ((b.head % b.capacity + i) % b.capacity) filler

  read-part :
      (b : NumpyRingBuffer A) (h : List A)
      → Holds b h
      → length h < b.capacity
      → take (length h) b.buf ≡ last b.capacity h
  read-part b h v p =
      let e : length h - b.capacity ≡ 0 = omega arith in
      rw e (
        list_ext _ _ (omega (arith, length-take (length h) b.buf, v.slots)) λ i hi.
          let hi' : i < length h = omega (arith, length-take (length h) b.buf, v.slots) in
          get_elem?-take (length h) i b.buf hi'
          ∙ ap (get_elem? b.buf) (sym (mod-eq_of_lt (omega arith)))
          ∙ v.at i hi' (omega arith))

  -- `read_all` returns the newest events of the history, oldest first, whatever the filler.
  pub numpy_read_all-eq-last :
      (filler : A) (b : NumpyRingBuffer A) (h : List A)
      → Holds b h
      → numpy_read_all filler b ≡ last b.capacity h
  unfolding numpy_read_all
  numpy_read_all-eq-last filler b [] v =
      let e : b.size ≡ 0 = omega (arith, v.kept) in
      rw (e, (let z : 0 - b.capacity ≡ 0 = omega arith in z))
  numpy_read_all-eq-last filler b (y ∷ h) v = elim (Bool-cases (ltb b.size b.capacity)) [
    | inl part ↦
        let e : b.size ≡ suc (length h) = ground (arith, v.kept) in
        let n : (b.size == 0) ≡ false = ground arith in
        rw (n, part, e) (read-part b (y ∷ h) v (ground (arith, v.kept)))
    | inr full ↦
        let n : (b.size == 0) ≡ false = ground (arith, v.room) in
        rw (n, full) (read-full filler b (y ∷ h) v (ground (arith, v.kept)))
  ]

  -- A new buffer holds the empty history.
  pub numpy_init-Holds :
      (filler : A) (n : ℕ)
      → Holds (record { capacity = suc n; buf = replicate (suc n) filler; head = 0; size = 0 }) []
  numpy_init-Holds filler n = record {
    room = omega arith;
    slots = length-replicate (suc n) filler;
    written = refl;
    kept = omega arith;
    at = λ i hi. elim hi [ ];
  }
