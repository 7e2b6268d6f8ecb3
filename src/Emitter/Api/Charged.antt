-- ===== src/Emitter/Api/Charged.antt =====
-- What one request does to the buckets of the keys.
use ai_quantum.Common.{
  ℕ, ◌+◌, ◌≡◌, refl, ◌∙◌, ap, Bool, true, false, List, [], ◌∷◌, Option, none, some, arith, ltb,
  if◌then◌else◌, Bool-cases, inl, inr,
}
use ai_quantum.Common.Text.{Text}
use ai_quantum.Common.Eq.{text_eq_instance, eqb}
use ai_quantum.Common.Dict.{get, put, get-put, get-put_self}
use ai_quantum.Emitter.Api.{
  Endpoint, Request, Response, unauthorized, too_many, App, window_at, known_key, handle, charge,
  respond,
}

-- A request was let through to its endpoint.
abbrev pub is_accepted : Response → Bool
is_accepted unauthorized = false
is_accepted too_many = false
is_accepted _ = true

window-minute : (minute : ℕ) (o : Option (ℕ × ℕ)) → (window_at minute o).0 ≡ minute
window-minute minute none = refl
window-minute minute (some (m, c)) = ground arith

module _ (api_keys : List Text) (rate_limit : ℕ) where
  abbrev pub within : ℕ → Bool
  within c = if ltb rate_limit (c + 1) then false else true

  pub known_key-eq : (o : Option Text) (key : Text) → known_key api_keys o ≡ some key → o ≡ some key
  known_key-eq none key h = cc
  known_key-eq (some []) key h = cc
  known_key-eq (some (c ∷ s)) key h = ground arith

  pub respond-none :
      (q : Request) (a : App)
      → known_key api_keys q.key ≡ none
      → respond api_keys rate_limit q a ≡ (unauthorized, a)
  unfolding respond
  respond-none q a h = rw (h, respond)

  pub record Charged (key : Text) (q : Request) (a : App) (out : Response × App) : Type 0 where
    pub rate : out.1.rate ≡ put key (q.minute, (window_at q.minute (get key a.rate)).1 + 1) a.rate
    pub let_through : is_accepted out.0 ≡ within (window_at q.minute (get key a.rate)).1

  handle-facts :
      (p : Endpoint) (a : App)
      → ((handle p a).1.rate ≡ a.rate) × (is_accepted (handle p a).0 ≡ true)
  unfolding handle
  handle-facts (Endpoint.subscribe url) a = (refl, refl)
  handle-facts (Endpoint.unsubscribe url) a = (refl, refl)
  handle-facts Endpoint.subscribers a = (refl, refl)

  pub charge-Charged :
      (key : Text) (q : Request) (a : App)
      → Charged key q a (charge api_keys rate_limit key q a (window_at q.minute (get key a.rate)))
  charge-Charged key q a =
      let cnt = (window_at q.minute (get key a.rate)).1 in
      let m : (window_at q.minute (get key a.rate)).0 ≡ q.minute =
        window-minute q.minute (get key a.rate) in
      let counted : App = record a {
        rate = put key ((window_at q.minute (get key a.rate)).0, cnt + 1) a.rate;
      } in
      let facts = handle-facts q.endpoint counted in
      elim (Bool-cases (ltb rate_limit (cnt + 1))) [
        | inl over ↦
            rw (over, charge)
              (record {
                rate = ap (λ (k : ℕ). put key (k, cnt + 1) a.rate) m;
                let_through = rw over;
              })
        | inr room ↦
            rw (room, charge)
              (record {
                rate = facts.0 ∙ ap (λ (k : ℕ). put key (k, cnt + 1) a.rate) m;
                let_through = facts.1 ∙ rw room;
              })
      ]

  pub respond-some :
      (q : Request) (a : App) (key : Text)
      → known_key api_keys q.key ≡ some key
      → Charged key q a (respond api_keys rate_limit q a)
  unfolding respond
  respond-some q a key h = rw (h, respond) (charge-Charged key q a)

  -- The bucket of a key after a request of its own, and of another's.
  pub get-put_own :
      (key : Text) (q : Request) (a : App) (out : Response × App)
      → Charged key q a out
      → get key out.1.rate ≡ some (q.minute, (window_at q.minute (get key a.rate)).1 + 1)
  get-put_own key q a out c =
      ap (get key) c.rate
      ∙ get-put_self key (q.minute, (window_at q.minute (get key a.rate)).1 + 1) a.rate

  pub get-put_other :
      (key other : Text) (q : Request) (a : App) (out : Response × App)
      → Charged other q a out
      → eqb other key ≡ false
      → get key out.1.rate ≡ get key a.rate
  get-put_other key other q a out c h =
      ap (get key) c.rate
      ∙ get-put other key (q.minute, (window_at q.minute (get other a.rate)).1 + 1) a.rate
      ∙ rw h
