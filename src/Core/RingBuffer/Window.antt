-- ===== src/Core/RingBuffer/Window.antt =====
-- What the deque buffer holds: the newest events of everything that was written to it.
use ai_quantum.Common.{
  ℕ, suc, ◌+◌, ◌-◌, ◌≤◌, ◌≡◌, ◌∙◌, ap, List, [], ◌∷◌, ◌++◌, arith, length, drop, last,
  length-append, drop-append, drop-suc, length-last,
}
use ai_quantum.Core.RingBuffer.{DequeRingBuffer, deque_write}

module _ {A : Type 0} where
  -- The window over a history after one more event, by whether it was full.
  pub last-append_room :
      (cap : ℕ) (h : List A) (x : A)
      → length h + 1 ≤ cap
      → last cap (h ++ x ∷ []) ≡ last cap h ++ x ∷ []
  last-append_room cap h x p =
      let a : length (h ++ x ∷ []) - cap ≡ 0 = omega (arith, length-append h (x ∷ [])) in
      let b : length h - cap ≡ 0 = omega arith in rw (a, b)

  pub last-append_full :
      (cap : ℕ) (h : List A) (x : A)
      → cap ≤ length h
      → last cap (h ++ x ∷ []) ≡ drop 1 (last cap h ++ x ∷ [])
  last-append_full cap h x p =
      let a : length (h ++ x ∷ []) - cap ≡ suc (length h - cap) =
        omega (arith, length-append h (x ∷ [])) in
      rw a (
        drop-suc (length h - cap) (h ++ x ∷ [])
        ∙ ap (drop 1) (drop-append (length h - cap) h (x ∷ []) (omega arith)))

  -- One write takes the window over a history to the window over the history with the event.
  pub buf-deque_write :
      (b : DequeRingBuffer A) (h : List A) (x : A)
      → b.buf ≡ last b.maxlen h
      → (deque_write x b).buf ≡ last b.maxlen (h ++ x ∷ [])
  unfolding deque_write
  buf-deque_write b h x e = ground (
    arith,
    e,
    last-append_room b.maxlen h x,
    last-append_full b.maxlen h x,
    length-append b.buf (x ∷ []),
    length-last b.maxlen h,
    ap length e,
  )

  pub maxlen-deque_write : (b : DequeRingBuffer A) (x : A) → (deque_write x b).maxlen ≡ b.maxlen
  unfolding deque_write
  maxlen-deque_write b x = ground arith
