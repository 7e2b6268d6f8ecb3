-- ===== src/Ingestion/Reconnect/Attempts.antt =====
-- How many attempts the wrapper makes, what it sleeps between them, and how it ends.
use native.Mathlib.Decide.{dec_lt}
use ai_quantum.Common.{
  ℕ, zero, suc, ◌+◌, ◌≤◌, ◌<◌, ◌≡◌, refl, ◌∙◌, ap, ◌⊎◌, inl, inr, false, List, [], ◌∷◌, ◌++◌,
  Option, arith, ltb, lt→ltb, tabulate, tabulate_snoc, Bool, true, none, some, ◌^◌, if◌then◌else◌,
  Bool-cases, sym, subst,
}
use ai_quantum.Common.Float.{Float, py_min}
use ai_quantum.Ingestion.Reconnect.{
  Attempt, returns, connection_error, other_error, Result, returned, raised_connection,
  raised_other, raised_overflow, float_exponent_limit, exhausted, delay, loop, wrapper,
}

-- How the wrapper ends with the answer of the attempt at which it stops.
abbrev pub final : {A : Type 0} → Option ℕ → ℕ → Attempt A → Result A
final max_retries k (returns a) = returned a
final max_retries k other_error = raised_other
final max_retries k connection_error =
    if exhausted max_retries k then raised_connection else raised_overflow

-- The attempt at which the wrapper stops: the first that is not a connection error, or the first
-- after which there is no retry.
pub record StopsAt {A : Type 0} (max_retries : Option ℕ) (call : ℕ → Attempt A) (k : ℕ)
    : Type 0 where
  pub failures : (i : ℕ) → i < k → call i ≡ connection_error
  pub allowed : (i : ℕ) → i < k → exhausted max_retries i ≡ false
  pub in_range : k ≤ float_exponent_limit
  pub at_last :
      call k ≡ connection_error → exhausted max_retries k ≡ false → k ≡ float_exponent_limit

-- A retry after attempt `i` is within the maximum.
abbrev pub Allows : Option ℕ → ℕ → Type 0
Allows max_retries i = (n : ℕ) → max_retries ≡ some n → i < n

Allows-exhausted : (m : Option ℕ) (i : ℕ) → exhausted m i ≡ false → Allows m i
Allows-exhausted none i h n e = cc e
Allows-exhausted (some l) i h n e = ground (arith, e)

exhausted-Allows : (m : Option ℕ) (i : ℕ) → Allows m i → exhausted m i ≡ false
exhausted-Allows none i h = refl
exhausted-Allows (some l) i h = ground (arith, h l refl)

exhausted_at : (m : Option ℕ) (n k : ℕ) → m ≡ some n → n ≤ k → exhausted m k ≡ true
exhausted_at none n k e h = cc e
exhausted_at (some l) n k e h = ground (arith, e)

-- The attempt `k` at which the wrapper stops.
pub record Stops {A : Type 0} (max_retries : Option ℕ) (call : ℕ → Attempt A) (k : ℕ) : Type 0 where
  pub failures : (i : ℕ) → i < k → call i ≡ connection_error
  pub allowed : (i : ℕ) → i < k → Allows max_retries i
  pub in_range : k ≤ 1024
  pub at_last : call k ≡ connection_error → Allows max_retries k → k ≡ 1024

-- What the wrapper makes of the answer of attempt `k`.
pub record EndsWith {A : Type 0} (max_retries : Option ℕ) (k : ℕ) (answer : Attempt A)
    (result : Result A) : Type 0 where
  pub returns_it : (a : A) → answer ≡ returns a → result ≡ returned a
  pub raises_other : answer ≡ other_error → result ≡ raised_other
  pub raises_connection :
      (n : ℕ)
      → answer ≡ connection_error
      → max_retries ≡ some n
      → n ≤ k
      → result ≡ raised_connection
  pub overflows : answer ≡ connection_error → Allows max_retries k → result ≡ raised_overflow

Attempt-cases :
    {A : Type 0} (x : Attempt A)
    → ((a : A) × (x ≡ returns a)) ⊎ ((x ≡ connection_error) ⊎ (x ≡ other_error))
Attempt-cases (returns a) = inl (a, refl)
Attempt-cases connection_error = inr (inl refl)
Attempt-cases other_error = inr (inr refl)

-- A family up to `k`, extended by its value at `k`.
below-suc : (P : ℕ → Type 0) (k : ℕ) → ((i : ℕ) → i < k → P i) → P k → (i : ℕ) → i < k + 1 → P i
below-suc P k h p i hi = elim (dec_lt i k) [
  | yes lt ↦ h i lt
  | no ge ↦ let e : k ≡ i = omega arith in subst P e p
]

module _ {A F : Type 0} ⦃f : Float F⦄ (max_retries : Option ℕ) (base cap : F)
    (call : ℕ → Attempt A) where
  abbrev slept : ℕ → List F
  slept k = tabulate k (delay max_retries base cap call)

  abbrev Ends : Result A × List F → Type 0
  Ends out = (k : ℕ) × StopsAt max_retries call k × (out ≡ (final max_retries k (call k), slept k))

  record Reached (k : ℕ) : Type 0 where
    failures : (i : ℕ) → i < k → call i ≡ connection_error
    allowed : (i : ℕ) → i < k → exhausted max_retries i ≡ false
    in_range : k ≤ float_exponent_limit

  abbrev run : ℕ → ℕ → Result A × List F
  run fuel k = loop max_retries base cap call (suc fuel) k (slept k)

  stops_here :
      (k : ℕ)
      → Reached k
      → (call k ≡ connection_error → exhausted max_retries k ≡ false → k ≡ float_exponent_limit)
      → StopsAt max_retries call k
  stops_here k r h = record {
    failures = r.failures;
    allowed = r.allowed;
    in_range = r.in_range;
    at_last = h;
  }

  -- Every answer but a connection error that may be retried ends the loop.
  stop_or_retry :
      (fuel k : ℕ)
      → Reached k
      → (call k ≡ connection_error → exhausted max_retries k ≡ false → Ends (run fuel k))
      → Ends (run fuel k)
  unfolding loop
  stop_or_retry fuel k r retry = elim (Attempt-cases (call k)) [
    | inl (a, ret) ↦ (k, stops_here k r (λ c. cc), rw (ret, loop))
    | inr (inr other) ↦ (k, stops_here k r (λ c. cc), rw (other, loop))
    | inr (inl conn) ↦ elim (Bool-cases (exhausted max_retries k)) [
      | inl done ↦ (k, stops_here k r (λ c m. cc), rw (conn, loop) (rw (done, loop)))
      | inr more ↦ retry conn more
    ]
  ]

  loop-overflow :
      (fuel k : ℕ)
      → call k ≡ connection_error
      → exhausted max_retries k ≡ false
      → k ≡ float_exponent_limit
      → run fuel k ≡ (raised_overflow, slept k)
  unfolding loop
  loop-overflow fuel k c m e =
      let past : ltb k float_exponent_limit ≡ false = ground arith in
      rw (c, loop) (rw (m, loop) (rw (past, loop)))

  loop-retry :
      (fuel k : ℕ)
      → call k ≡ connection_error
      → exhausted max_retries k ≡ false
      → k < float_exponent_limit
      → run (suc fuel) k
        ≡ loop max_retries base cap call
            (suc fuel)
            (k + 1)
            (slept k ++ delay max_retries base cap call k ∷ [])
  unfolding loop
  loop-retry fuel k c m h = rw (c, loop) (rw (m, loop) (rw (lt→ltb k float_exponent_limit h, loop)))

  Reached-suc :
      (k : ℕ)
      → Reached k
      → call k ≡ connection_error
      → exhausted max_retries k ≡ false
      → k < float_exponent_limit
      → Reached (k + 1)
  Reached-suc k r c m h = record {
    failures = below-suc (λ i. call i ≡ connection_error) k r.failures c;
    allowed = below-suc (λ i. exhausted max_retries i ≡ false) k r.allowed m;
    in_range = omega arith;
  }

  slept-suc : (k : ℕ) → slept k ++ delay max_retries base cap call k ∷ [] ≡ slept (k + 1)
  slept-suc k =
      sym (tabulate_snoc k (delay max_retries base cap call))
      ∙ ap slept (let e : suc k ≡ k + 1 = omega arith in e)

  loop-Ends : (fuel k : ℕ) → fuel + k ≡ float_exponent_limit → Reached k → Ends (run fuel k)
  loop-Ends zero k e r = stop_or_retry zero k r λ c m.
      let last : k ≡ float_exponent_limit = omega arith in
      (k, stops_here k r (λ c' m'. last), loop-overflow zero k c m last ∙ rw (c, m))
  loop-Ends (suc fuel) k e r = stop_or_retry (suc fuel) k r λ c m.
      rw (loop-retry fuel k c m (omega arith)) (
        rw (slept-suc k) (loop-Ends fuel (k + 1) (omega arith) (Reached-suc k r c m (omega arith))))

  wrapper-Ends : Ends (wrapper max_retries base cap call)
  unfolding wrapper
  wrapper-Ends =
      loop-Ends float_exponent_limit 0 (omega arith) (record {
        failures = λ i h. elim h [ ];
        allowed = λ i h. elim h [ ];
        in_range = omega arith;
      })

  final-EndsWith :
      (k : ℕ) (r : Result A) → r ≡ final max_retries k (call k) → EndsWith max_retries k (call k) r
  final-EndsWith k r e = record {
    returns_it = λ a c. e ∙ ap (final max_retries k) c;
    raises_other = λ c. e ∙ ap (final max_retries k) c;
    raises_connection = λ n c m h.
        e
        ∙ ap (final max_retries k) c
        ∙ ap (λ (b : Bool). if b then raised_connection else raised_overflow)
            (exhausted_at max_retries n k m h);
    overflows = λ c h.
        e
        ∙ ap (final max_retries k) c
        ∙ ap (λ (b : Bool). if b then raised_connection else raised_overflow)
            (exhausted-Allows max_retries k h);
  }

  -- The wrapper always ends, and never for lack of fuel: there is an attempt, the first that is not
  -- a connection error or the first after which there is no retry, whose answer decides the
  -- result; before it the wrapper slept min(base * 2^i, cap) after each attempt `i`, and the
  -- number `i` of each was below the maximum of retries, if there is one. A connection error at
  -- that attempt is raised if its number has reached the maximum, and is an `OverflowError`
  -- otherwise, which happens at attempt 1024 only.
  pub wrapper_lem :
      (k : ℕ) × Stops max_retries call k
      × EndsWith max_retries k (call k) (wrapper max_retries base cap call).0
      × ((wrapper max_retries base cap call).1
          ≡ tabulate k (λ i. py_min (f.mul base (f.of_ℕ (2 ^ i))) cap))
  wrapper_lem =
      let (k, s, e) = wrapper-Ends in
      (
        k,
        record {
          failures = s.failures;
          allowed = λ i h. Allows-exhausted max_retries i (s.allowed i h);
          in_range = s.in_range;
          at_last = λ c h. s.at_last c (exhausted-Allows max_retries k h);
        },
        final-EndsWith k (wrapper max_retries base cap call).0
            (ap (λ (o : Result A × List F). o.0) e),
        ap (λ (o : Result A × List F). o.1) e,
      )
