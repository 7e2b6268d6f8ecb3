-- ===== src/Ingestion/Client.antt =====
-- ingestion/config.py and ingestion/client.py. The environment is a dictionary, and what a connection
-- attempt gives is an argument.
mod Tests
use ai_quantum.Common.{
  List, [], ◌∷◌, Bool, true, false, Option, none, some, Outcome, ok, err, ◌≡◌, refl,
}
use ai_quantum.Common.Text.{Text, codes, strip, text_eq}
use ai_quantum.Common.Eq.{text_eq_instance}
use ai_quantum.Common.Dict.{get}

pub data ConfigError : Type 0 where
  wss_url_required : ConfigError

pub record IngestionConfig : Type 0 where
  pub wss_url : Text
  pub wss_fallback_url : Option Text
  pub alchemy_key : Option Text
  pub etherscan_api_key : Option Text

-- `os.environ.get(name) or None`.
abbrev pub not_empty : Option Text → Option Text
not_empty none = none
not_empty (some []) = none
not_empty (some (c ∷ s)) = some (c ∷ s)

abbrev pub with_url : List (Text × Text) → Text → Outcome ConfigError IngestionConfig
with_url environ [] = err wss_url_required
with_url environ (c ∷ s) = ok (record {
  wss_url = c ∷ s;
  wss_fallback_url = not_empty (get (codes "WSS_FALLBACK_URL") environ);
  alchemy_key = not_empty (get (codes "ALCHEMY_KEY") environ);
  etherscan_api_key = not_empty (get (codes "ETHERSCAN_API_KEY") environ);
})

-- `os.environ.get(name, "").strip()`.
abbrev pub stripped : Option Text → Text
stripped none = []
stripped (some s) = strip s

unfoldable pub load : List (Text × Text) → Outcome ConfigError IngestionConfig
load environ = with_url environ (stripped (get (codes "WSS_URL") environ))

-- `EthereumClient`; `w3` is whether it is connected.
pub record EthereumClient : Type 0 where
  pub cfg : IngestionConfig
  pub w3 : Bool

abbrev pub client_of : IngestionConfig → EthereumClient
client_of cfg = record { cfg = cfg; w3 = false }

-- What the provider's `connect` gives within the timeout: a connection, one of the three exceptions
-- that the method turns into its own, or another one.
pub data Attempt : Type 0 where
  connected refused other_exception : Attempt

pub data ConnectError : Type 0 where
  connection_error : Text → ConnectError
  passed_on : ConnectError

-- `connect`: a client that is connected does not connect again.
unfoldable pub connect : Attempt → EthereumClient → Outcome ConnectError (Unit {0}) × EthereumClient
connect attempt c = elim c.w3 [
  | true ↦ (ok tt, c)
  | false ↦ elim attempt [
    | connected ↦ (ok tt, record c { w3 = true })
    | refused ↦ (err (connection_error c.cfg.wss_url), c)
    | other_exception ↦ (err passed_on, c)
  ]
]

-- `disconnect`: whatever the provider raises, the client is left without a connection.
unfoldable pub disconnect : EthereumClient → EthereumClient
disconnect c = record c { w3 = false }

-- `async with`: the body runs with a connected client, and the client is disconnected after it.
unfoldable pub session {ℓ} :
    {A : Type ℓ}
    → Attempt
    → (EthereumClient → A)
    → EthereumClient
    → Outcome ConnectError A × EthereumClient
unfolding connect disconnect
session attempt body c =
    let (entered, c') = connect attempt c in
    elim entered [ err e ↦ (err e, c') | ok u ↦ (ok (body c'), disconnect c') ]

-- A client that is entered and left is disconnected, and its body saw a connection.
pub session-connected :
    (c : EthereumClient)
    → c.w3 ≡ false
    → session connected (λ d. d.w3) c ≡ (ok true, record c { w3 = false })
unfolding session connect disconnect
session-connected c h = rw h refl
