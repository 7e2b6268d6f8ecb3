-- ===== src/Emitter/Api/RateLimit.antt =====
-- What the key check and the rate limit let through.
use ai_quantum.Common.{
  ℕ, ◌+◌, ◌-◌, ◌≤◌, ◌<◌, ◌≡◌, refl, ◌∙◌, ap, Bool, false, ◌&&◌, List, [], ◌∷◌, Option, none, some,
  arith, ◌==◌, if◌then◌else◌, Bool-cases, Option-cases, inl, inr,
}
use native.Mathlib.Decide.{dec_lt}
use ai_quantum.Common.Text.{Text, text_eq_iff}
use ai_quantum.Common.Eq.{text_eq_instance, eqb}
use ai_quantum.Common.Dict.{get}
use ai_quantum.Emitter.Api.{Request, App, window_at, known_key, respond}
use ai_quantum.Emitter.Api.Charged.{
  is_accepted, within, known_key-eq, respond-none, Charged, respond-some, get-put_own,
  get-put_other,
}

-- A request of this key at this minute.
abbrev pub is_from : Text → ℕ → Request → Bool
is_from key minute q = elim q.key [ none ↦ false | some k ↦ eqb k key ] && (q.minute == minute)

module _ (api_keys : List Text) (rate_limit : ℕ) where
  -- How many requests of a key at a minute reach their endpoint.
  unfoldable pub accepted : Text → ℕ → List Request → App → ℕ
  unfolding respond
  accepted key minute [] a = 0
  accepted key minute (q ∷ qs) a =
      let (r, a') = respond api_keys rate_limit q a in
      (if is_from key minute q && is_accepted r then 1 else 0) + accepted key minute qs a'

  -- The minutes of the requests do not fall, from minute `t` on.
  abbrev pub Monotone : ℕ → List Request → Type 0
  Monotone t [] = Unit
  Monotone t (q ∷ qs) = (t ≤ q.minute) × Monotone q.minute qs

  -- What a key has left of its limit at a minute.
  abbrev budget : ℕ → Option (ℕ × ℕ) → ℕ
  budget minute none = rate_limit
  budget minute (some (m, c)) = if m == minute then rate_limit - c else rate_limit

  -- The bucket of a key is not ahead of the clock.
  abbrev NotAhead : ℕ → Option (ℕ × ℕ) → Type 0
  NotAhead t none = Unit
  NotAhead t (some (m, c)) = m ≤ t

  NotAhead-le : (s t : ℕ) (o : Option (ℕ × ℕ)) → s ≤ t → NotAhead s o → NotAhead t o
  NotAhead-le s t none h k = tt
  NotAhead-le s t (some (m, c)) h k = omega arith

  -- A request in the minute spends one of the budget if it is let through.
  budget-spent :
      (minute m : ℕ) (o : Option (ℕ × ℕ))
      → m ≡ minute
      → (if within api_keys rate_limit (window_at m o).1 then 1 else 0)
          + budget minute (some (m, (window_at m o).1 + 1))
        ≤ budget minute o
  budget-spent minute m none e = ground arith
  budget-spent minute m (some (n, c)) e = ground arith

  at_most_one : (b acc w : Bool) → acc ≡ w → (if b && acc then 1 else 0) ≤ (if w then 1 else 0)
  at_most_one b acc w e = ground arith

  not_from :
      (key : Text) (minute : ℕ) (q : Request)
      → (q.minute == minute) ≡ false
      → is_from key minute q ≡ false
  not_from key minute q h = ground arith

  -- Nothing is accepted in a minute that is over.
  accepted-late :
      (key : Text) (minute t : ℕ) (qs : List Request) (a : App)
      → minute < t
      → Monotone t qs
      → accepted key minute qs a ≡ 0
  unfolding accepted
  accepted-late key minute t [] a h k = refl
  accepted-late key minute t (q ∷ qs) a h k =
      let other : is_from key minute q ≡ false = not_from key minute q (ground arith) in
      rw other (
        omega (
          arith,
          accepted-late key minute q.minute qs (respond api_keys rate_limit q a).1 (omega arith)
              k.1,
        ))

  budget-early :
      (minute t : ℕ) (o : Option (ℕ × ℕ)) → NotAhead t o → t < minute → budget minute o ≡ rate_limit
  budget-early minute t none h k = refl
  budget-early minute t (some (m, c)) h k = ground arith

  -- A request of the key itself, at any minute.
  own_request :
      (key : Text) (minute t : ℕ) (q : Request) (qs : List Request) (a : App)
      → Charged api_keys rate_limit key q a (respond api_keys rate_limit q a)
      → Monotone t (q ∷ qs)
      → NotAhead t (get key a.rate)
      → ((a' : App)
          → NotAhead q.minute (get key a'.rate)
          → accepted key minute qs a' ≤ budget minute (get key a'.rate))
      → (if is_from key minute q && is_accepted (respond api_keys rate_limit q a).0 then 1 else 0)
          + accepted key minute qs (respond api_keys rate_limit q a).1
        ≤ budget minute (get key a.rate)
  own_request key minute t q qs a c h k ih =
      let a' = (respond api_keys rate_limit q a).1 in
      let cnt = (window_at q.minute (get key a.rate)).1 in
      let now = get-put_own api_keys rate_limit key q a (respond api_keys rate_limit q a) c in
      let rest = ih a' (rw now (omega arith)) in
      elim (dec_lt minute q.minute) [
        | yes past ↦
            rw (not_from key minute q (ground arith))
              (omega (arith, accepted-late key minute q.minute qs a' past h.1))
        | no present ↦ elim (dec_lt q.minute minute) [
          | yes early ↦ rw (not_from key minute q (ground arith)) (
              omega (
                arith,
                rest,
                ap (budget minute) now,
                budget-early minute q.minute (some (q.minute, cnt + 1)) (omega arith) early,
                budget-early minute t (get key a.rate) k (omega arith),
              ))
          | no late ↦
              let same : q.minute ≡ minute = omega arith in
              omega (
                arith,
                rest,
                ap (budget minute) now,
                budget-spent minute q.minute (get key a.rate) same,
                at_most_one (is_from key minute q) (is_accepted (respond api_keys rate_limit q a).0)
                    (within api_keys rate_limit cnt) c.let_through,
              )
        ]
      ]

  one_request :
      (key : Text) (minute t : ℕ) (q : Request) (qs : List Request) (a : App)
      → Monotone t (q ∷ qs)
      → NotAhead t (get key a.rate)
      → ((a' : App)
          → NotAhead q.minute (get key a'.rate)
          → accepted key minute qs a' ≤ budget minute (get key a'.rate))
      → (if is_from key minute q && is_accepted (respond api_keys rate_limit q a).0 then 1 else 0)
          + accepted key minute qs (respond api_keys rate_limit q a).1
        ≤ budget minute (get key a.rate)
  one_request key minute t q qs a h k ih =
      let later = NotAhead-le t q.minute (get key a.rate) h.0 k in
      elim (Option-cases (known_key api_keys q.key)) [
        | inl refused ↦
            rw (respond-none api_keys rate_limit q a refused) (ground (arith, ih a later))
        | inr (other, e) ↦
            let c = respond-some api_keys rate_limit q a other e in
            elim (Bool-cases (eqb other key)) [
              | inl same ↦
                  let eq : other ≡ key = (text_eq_iff other key).0 same in
                  own_request key minute t q qs a (rw eq at c) h k ih
              | inr differs ↦
                  let kept =
                    get-put_other api_keys rate_limit key other q a
                      (respond api_keys rate_limit q a) c differs in
                  let not_ours : is_from key minute q ≡ false =
                    rw (known_key-eq api_keys rate_limit q.key other e, differs) in
                  rw not_ours (
                    omega (
                      arith,
                      ap (budget minute) kept,
                      ih (respond api_keys rate_limit q a).1 (rw kept later),
                    ))
            ]
      ]

  accepted-le-budget :
      (key : Text) (minute t : ℕ) (qs : List Request) (a : App)
      → Monotone t qs
      → NotAhead t (get key a.rate)
      → accepted key minute qs a ≤ budget minute (get key a.rate)
  unfolding accepted
  accepted-le-budget key minute t [] a h k = omega arith
  accepted-le-budget key minute t (q ∷ qs) a h k =
      one_request key minute t q qs a h k
        (λ a' n. accepted-le-budget key minute q.minute qs a' h.1 n)

  -- While the clock does not run backwards, no key has more than `rate_limit` requests let through
  -- to their endpoints in any one minute.
  pub accepted-le-rate_limit :
      (key : Text) (minute : ℕ) (qs : List Request) (a : App)
      → a.rate ≡ []
      → Monotone 0 qs
      → accepted key minute qs a ≤ rate_limit
  unfolding get
  accepted-le-rate_limit key minute qs a e h =
      let empty : get key a.rate ≡ none = ap (get key) e ∙ refl in
      omega (arith, ap (budget minute) empty, accepted-le-budget key minute 0 qs a h (rw empty tt))
