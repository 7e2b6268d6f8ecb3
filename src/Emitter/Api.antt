-- ===== src/Emitter/Api.antt =====
-- emitter/api.py: the subscription endpoints behind the API key check and the rate limit. The clock
-- is read once for each request; `minute` is what `int(time.time() // 60)` gives.
mod Charged
pub mod RateLimit
use ai_quantum.Common.{
  ℕ, ◌+◌, Bool, true, false, List, [], ◌∷◌, Option, none, some, ◌==◌, ltb, if◌then◌else◌,
}
use ai_quantum.Common.Text.{Text}
use ai_quantum.Common.Eq.{text_eq_instance}
use ai_quantum.Common.Dict.{get, put}
use ai_quantum.Common.Set.{contains}
use ai_quantum.Emitter.Registry.{SubscriberRegistry, add_url, remove_url, all}

pub data Endpoint : Type 0 where
  subscribe : Text → Endpoint
  unsubscribe : Text → Endpoint
  subscribers : Endpoint

pub record Request : Type 0 where
  pub key : Option Text
  pub minute : ℕ
  pub endpoint : Endpoint

pub data Response : Type 0 where
  subscribed : Text → Response
  unsubscribed : Text → Response
  listing : List Text → Response
  unauthorized : Response
  too_many : Response

-- `_rate` maps a key to its minute bucket and the count in it.
pub record App : Type 0 where
  pub registry : SubscriberRegistry
  pub rate : List (Text × (ℕ × ℕ))

-- The window of a key at a minute, after a reset if the minute is a new one.
abbrev pub window_at : ℕ → Option (ℕ × ℕ) → ℕ × ℕ
window_at minute none = (minute, 0)
window_at minute (some (m, c)) = if m == minute then (m, c) else (minute, 0)

unfoldable pub handle : Endpoint → App → Response × App
handle (subscribe url) a = (subscribed url, record a { registry = add_url url a.registry })
handle (unsubscribe url) a = (unsubscribed url, record a { registry = remove_url url a.registry })
handle subscribers a = (listing (all a.registry), a)

-- `require_api_key`: the key that is let through, or the response of the exception.
abbrev pub Authorized : Type 0
Authorized = Option Text

abbrev pub known_key : List Text → Option Text → Option Text
known_key api_keys none = none
known_key api_keys (some []) = none
known_key api_keys (some (c ∷ s)) = if contains (c ∷ s) api_keys then some (c ∷ s) else none

module _ (api_keys : List Text) (rate_limit : ℕ) where
  abbrev charge : Text → Request → App → ℕ × ℕ → Response × App
  charge key q a (m, c) =
      let counted = record a { rate = put key (m, c + 1) a.rate } in
      if ltb rate_limit (c + 1) then (too_many, counted) else handle q.endpoint counted

  unfoldable pub respond : Request → App → Response × App
  respond q a = elim (known_key api_keys q.key) [
    | none ↦ (unauthorized, a)
    | some key ↦ charge key q a (window_at q.minute (get key a.rate))
  ]

  -- A sequence of requests, one after the other.
  unfoldable pub serve : List Request → App → List Response × App
  unfolding respond
  serve [] a = ([], a)
  serve (q ∷ qs) a = let (r, a') = respond q a in let (rs, a'') = serve qs a' in (r ∷ rs, a'')
