-- ===== src/Ingestion/Streams.antt =====
-- `stream_new_heads` of ingestion/streams.py: the messages of the shared socket, and the calls that
-- go out to the node. The consumer may close the generator after a number of headers.
pub mod Own
mod Tests
use ai_quantum.Common.{
  ℕ, zero, suc, List, [], ◌∷◌, ◌++◌, Bool, true, false, Option, none, some, if◌then◌else◌,
}
use ai_quantum.Common.Text.{Text, codes, text_eq}
use ai_quantum.Common.Text.Hex.{hex}
use ai_quantum.Ingestion.Client.{EthereumClient}

-- A hash: bytes, or another object by its text; `none` where it is missing or `None`.
pub data Hash : Type 0 where
  bytes : List ℕ → Hash
  other : Text → Hash

-- `_to_hex`.
unfoldable pub to_hex : Option Hash → Text
to_hex none = []
to_hex (some (bytes b)) = codes "0x" ++ hex b
to_hex (some (other s)) = s

-- `message["result"]`; `none` is a missing key.
pub record RawHeader : Type 0 where
  pub number : Option ℕ
  pub hash : Option Hash
  pub timestamp : Option ℕ
  pub parent_hash : Option Hash

pub record Message : Type 0 where
  pub subscription : Option Text
  pub result : Option RawHeader

-- What is yielded.
pub record Header : Type 0 where
  pub number : ℕ
  pub hash : Text
  pub timestamp : ℕ
  pub parent_hash : Text

abbrev pub with_times : RawHeader → Option ℕ → Option ℕ → Option Header
with_times h none t = none
with_times h (some n) none = none
with_times h (some n) (some t) =
    some (record {
      number = n;
      hash = to_hex h.hash;
      timestamp = t;
      parent_hash = to_hex h.parent_hash;
    })

-- The dictionary that is built, or its `KeyError`.
unfoldable pub header_of : Option RawHeader → Option Header
unfolding to_hex
header_of none = none
header_of (some h) = with_times h h.number h.timestamp

-- `message.get("subscription") != subscription_id`.
unfoldable pub is_own : Text → Message → Bool
is_own subscription_id m = elim m.subscription [
  | none ↦ false
  | some id ↦ text_eq id subscription_id
]

-- How the generator is left: the socket ended, the consumer closed it, or a key was missing.
pub data Ending : Type 0 where
  ended closed key_error : Ending

abbrev pub Streamed : Type 0
Streamed = List Header × Ending

abbrev pub yielded : Header → Streamed → Streamed
yielded h (headers, ending) = (h ∷ headers, ending)

-- The headers that the consumer still wants after one; `none` never closes the generator.
abbrev pub next_wanted : Option ℕ → Option ℕ
next_wanted none = none
next_wanted (some zero) = some zero
next_wanted (some (suc n)) = some n

abbrev pub is_enough : Option ℕ → Bool
is_enough none = false
is_enough (some zero) = true
is_enough (some (suc n)) = false

-- The loop. A close by the consumer takes effect where the generator waits, at the `yield`.
unfoldable pub consume : Text → Option ℕ → List Message → Streamed
unfolding is_own header_of
consume subscription_id wanted [] = ([], ended)
consume subscription_id wanted (m ∷ ms) =
    let rest = consume subscription_id wanted ms in
    let more = consume subscription_id (next_wanted wanted) ms in
    if is_own subscription_id m
    then elim (header_of m.result) [
      | none ↦ ([], key_error)
      | some h ↦ yielded h (if is_enough (next_wanted wanted) then ([], closed) else more)
    ]
    else rest

-- The calls to the node.
pub data Call : Type 0 where
  subscribe : Text → Call
  unsubscribe : Text → Call

pub record Stream : Type 0 where
  pub calls : List Call
  pub streamed : Streamed

-- `none` is the `RuntimeError` of a client that is not connected; `granted` is the id that the
-- node gives to the subscription.
unfoldable pub stream_new_heads : EthereumClient → Text → Option ℕ → List Message → Option Stream
unfolding consume
stream_new_heads client granted wanted messages =
    if client.w3
    then some (record {
      calls = subscribe (codes "newHeads") ∷ unsubscribe granted ∷ [];
      streamed = consume granted wanted messages;
    })
    else none
