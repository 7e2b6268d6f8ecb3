-- ===== src/Core/RingBuffer/Lock.antt =====
-- `AsyncRingBuffer`: any backend behind one `asyncio.Lock`. Tasks are interleaved by the event loop
-- at `await` only, so `write` and the reads are one action each: they take the lock, call the
-- backend and give the lock back with no `await` between. `snapshot` keeps the lock over a `yield`,
-- so its entry and its exit are two actions, and any task may run in between.
use ai_quantum.Common.{
  ℕ, ◌≡◌, ◌∙◌, ap, Bool, true, false, List, [], ◌∷◌, Option, none, some, arith, ◌==◌, if◌then◌else◌,
  Option-cases, inl, inr, Outcome, ok, err,
}
use ai_quantum.Common.Int.{ℤ}
use ai_quantum.Core.RingBuffer.{RingBufferProtocol}

pub data TypeError : Type 0 where
  missing_write async_backend : TypeError

module _ {A : Type 0} (p : RingBufferProtocol A) where
  -- `holder` is the task inside `snapshot`, if there is one.
  pub record AsyncRingBuffer : Type 0 where
    pub backend : p.Buffer
    pub holder : Option ℕ

  -- The actions of the tasks, each with the task's number.
  pub data Action : Type 0 where
    write : ℕ → A → Action
    read_all : ℕ → Action
    read_latest : ℕ → ℤ → Action
    enter_snapshot : ℕ → Action
    exit_snapshot : ℕ → Action
    len : ℕ → Action
    capacity : ℕ → Action

  pub data Seen : Type 0 where
    done : Seen
    events : List A → Seen
    count : ℕ → Seen

  -- `__init__`: what `getattr(backend, "write", None)` finds is no attribute, or a function of
  -- which `iscoroutinefunction` tells whether it is a coroutine.
  pub async_init : Option Bool → p.Buffer → Outcome TypeError AsyncRingBuffer
  async_init none b = err missing_write
  async_init (some true) b = err async_backend
  async_init (some false) b = ok (record { backend = b; holder = none })

  abbrev with_lock : {B : Type 0} → AsyncRingBuffer → B → Option B
  with_lock s b = elim s.holder [ none ↦ some b | some t ↦ none ]

  -- `none`: the action cannot happen now, the task waits for the lock.
  unfoldable pub step : AsyncRingBuffer → Action → Option (Seen × AsyncRingBuffer)
  step s (write t x) = with_lock s (done, record s { backend = p.write x s.backend })
  step s (read_all t) = with_lock s (events (p.read_all s.backend), s)
  step s (read_latest t n) = with_lock s (events (p.read_latest n s.backend), s)
  step s (enter_snapshot t) =
      with_lock s (events (p.read_all s.backend), record s { holder = some t })
  step s (exit_snapshot t) = elim s.holder [
    | none ↦ none
    | some h ↦ if h == t then some (done, record s { holder = none }) else none
  ]
  step s (len t) = some (count (p.len s.backend), s)
  step s (capacity t) = some (count (p.capacity s.backend), s)

  -- A schedule of actions that can all happen in this order.
  unfoldable pub run : AsyncRingBuffer → List Action → Option AsyncRingBuffer
  unfolding step
  run s [] = some s
  run s (a ∷ as') = elim (step s a) [ none ↦ none | some (seen, s') ↦ run s' as' ]

  -- The schedule has no exit of task `t`.
  abbrev pub NoExit : ℕ → List Action → Type 0
  NoExit t [] = Unit
  NoExit t (exit_snapshot u ∷ as') = ((u == t) ≡ false) × NoExit t as'
  NoExit t (_ ∷ as') = NoExit t as'

  -- The events that a schedule writes, in order.
  unfoldable pub writes : List Action → List A
  writes [] = []
  writes (write t x ∷ as') = x ∷ writes as'
  writes (_ ∷ as') = writes as'

  unfoldable pub apply_writes : p.Buffer → List A → p.Buffer
  apply_writes b [] = b
  apply_writes b (x ∷ xs) = apply_writes (p.write x b) xs

  -- While `t` holds the lock, what others do leaves the state as it is.
  held-step :
      (s : AsyncRingBuffer) (t : ℕ) (a : Action) {seen : Seen} {u : AsyncRingBuffer}
      → s.holder ≡ some t
      → NoExit t (a ∷ [])
      → step s a ≡ some (seen, u)
      → u ≡ s
  unfolding step
  held-step s t (exit_snapshot v) e n h = ground arith
  held-step s t a e n h = ground arith

  NoExit-cons :
      (t : ℕ) (a : Action) (as' : List Action)
      → NoExit t (a ∷ as')
      → NoExit t (a ∷ []) × NoExit t as'
  NoExit-cons t (exit_snapshot v) as' n = ((n.0, tt), n.1)
  NoExit-cons t (write v x) as' n = (tt, n)
  NoExit-cons t (read_all v) as' n = (tt, n)
  NoExit-cons t (read_latest v k) as' n = (tt, n)
  NoExit-cons t (enter_snapshot v) as' n = (tt, n)
  NoExit-cons t (len v) as' n = (tt, n)
  NoExit-cons t (capacity v) as' n = (tt, n)

  run-cons :
      (a : Action) (as' : List Action) (s : AsyncRingBuffer) {u : AsyncRingBuffer}
      → run s (a ∷ as') ≡ some u
      → (seen : Seen) × (s' : AsyncRingBuffer) × (step s a ≡ some (seen, s'))
        × (run s' as' ≡ some u)
  unfolding run
  run-cons a as' s h = elim (Option-cases (step s a)) [
    | inl blocked ↦ ground (arith, blocked)
    | inr (r, went) ↦ (r.0, r.1, went, ground (arith, went))
  ]

  held-run :
      (as' : List Action) (s : AsyncRingBuffer) (t : ℕ) {u : AsyncRingBuffer}
      → s.holder ≡ some t
      → NoExit t as'
      → run s as' ≡ some u
      → u ≡ s
  unfolding run
  held-run [] s t e n h = cc h
  held-run (a ∷ as') s t e n h =
      let (seen, s', went, rest) = run-cons a as' s h in
      let (n₀, n₁) = NoExit-cons t a as' n in
      let same : s' ≡ s = held-step s t a e n₀ went in
      held-run as' s' t (ap (λ (q : AsyncRingBuffer). q.holder) same ∙ e) n₁ rest ∙ same

  -- From the entry of a task's `snapshot` until that task leaves it, whatever the other tasks do in
  -- between, the backend is the one that the entry read: the yielded events stay `read_all`.
  pub snapshot_isolated :
      (as' : List Action) (s : AsyncRingBuffer) (t : ℕ) {seen : Seen} {s' u : AsyncRingBuffer}
      → step s (enter_snapshot t) ≡ some (seen, s')
      → NoExit t as'
      → run s' as' ≡ some u
      → (u.backend ≡ s.backend) × (u.holder ≡ some t) × (seen ≡ events (p.read_all u.backend))
  unfolding step
  snapshot_isolated as' s t {seen} {s'} {u} e n h =
      let locked : s'.holder ≡ some t = ground arith in
      let kept : u ≡ s' = held-run as' s' t locked n h in ground (arith, kept)

  write_first :
      (a : Action) (as' : List Action) (s : AsyncRingBuffer) {seen : Seen} {s' : AsyncRingBuffer}
      {b : p.Buffer}
      → step s a ≡ some (seen, s')
      → b ≡ apply_writes s'.backend (writes as')
      → b ≡ apply_writes s.backend (writes (a ∷ as'))
  unfolding step writes apply_writes
  write_first (write t x) as' s h k = ground arith
  write_first (exit_snapshot t) as' s h k = ground arith
  write_first _ as' s h k = ground arith

  -- A schedule that can happen leaves the backend with exactly its writes, each once, in order.
  pub backend-run :
      (as' : List Action) (s : AsyncRingBuffer) {u : AsyncRingBuffer}
      → run s as' ≡ some u
      → u.backend ≡ apply_writes s.backend (writes as')
  unfolding run writes apply_writes
  backend-run [] s h = ground arith
  backend-run (a ∷ as') s h =
      let (seen, s', went, rest) = run-cons a as' s h in
      write_first a as' s went (backend-run as' s' rest)
