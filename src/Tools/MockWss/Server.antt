-- ===== src/Tools/MockWss/Server.antt =====
-- tools/mock_wss/server.py: the clients' bounded queues, their subscriptions and the replay. Nothing
-- is awaited within a block, so the replay of one is a single step. The JSON texts are constructors;
-- the ABI codec, the calendar, the hash and the fresh subscription ids are parameters.
pub mod Fanout
pub mod Invariant
mod Tests
use ai_quantum.Common.{
  ℕ, zero, suc, ◌+◌, Bool, true, false, ◌&&◌, List, [], ◌∷◌, ◌++◌, Option, none, some,
  if◌then◌else◌, Outcome, ok, err, length, drop, ltb,
}
use ai_quantum.Common.Int.{ℤ, pos, negsuc, sub_ℕ}
use ai_quantum.Common.Text.{Text, codes, text_eq, lower}
use ai_quantum.Common.Text.Number.{hex_int}
use ai_quantum.Common.Eq.{text_eq_instance}
use ai_quantum.Common.Dict.{get, put, remove}
use ai_quantum.Common.Set.{contains, add}
use ai_quantum.Ingestion.Event.{TickDataEvent}
use ai_quantum.Ingestion.Decoders.{Log, Abi}
use ai_quantum.Tools.MockWss.Blocks.{Group}
use ai_quantum.Tools.MockWss.RawLog.{build_raw_log}

abbrev pub max_queue_per_client : ℕ
max_queue_per_client = 10000

-- `build_block_header`.
pub record Header : Type 0 where
  pub number : Text
  pub hash : Text
  pub parent_hash : Text
  pub timestamp : Text

-- `hex(n)` of any integer.
abbrev pub hex_of : ℤ → Text
hex_of (pos n) = hex_int n
hex_of (negsuc n) = codes "-" ++ hex_int (suc n)

-- The `result` of a notification; a log stands with its address.
pub data Content : Type 0 where
  header : Header → Content
  log : Text → Log → Content

pub data Answer : Type 0 where
  subscription_id : Text → Answer
  removed : Bool → Answer
  method_not_found : Answer

pub data Outgoing : Type 0 where
  notification : Text → Content → Outgoing
  reply : Text → Answer → Outgoing

-- `addresses` is `none` where every address matches.
pub record Subscription : Type 0 where
  pub kind : Text
  pub addresses : Option (List Text)

pub record Client : Type 0 where
  pub queue : List Outgoing
  pub subs : List (Text × Subscription)
  pub dropped : ℕ

pub record Server : Type 0 where
  pub clients : List Client
  pub current_block : ℕ
  pub events_sent : ℕ
  pub dropped_total : ℕ

-- `_Client.enqueue`. A full queue is not empty, so its eviction cannot fail.
unfoldable pub enqueue : Outgoing → Client → Bool × Client
enqueue message c =
    if ltb (length c.queue) max_queue_per_client
    then (false, record c { queue = c.queue ++ message ∷ [] })
    else (true, record c { queue = drop 1 c.queue ++ message ∷ []; dropped = c.dropped + 1 })

-- The `address` entry of a filter: a text, a list whose elements may be no texts, or neither.
pub data AddressFilter : Type 0 where
  absent : AddressFilter
  one : Text → AddressFilter
  many : List (Option Text) → AddressFilter

abbrev pub new_heads : Text
new_heads = codes "newHeads"

abbrev pub logs : Text
logs = codes "logs"

-- `{a.lower() for a in addr if isinstance(a, str)}`.
unfoldable pub cleaned : List (Option Text) → List Text
cleaned [] = []
cleaned (none ∷ xs) = cleaned xs
cleaned (some a ∷ xs) = add (lower a) (cleaned xs)

abbrev pub non_empty : List Text → Option (List Text)
non_empty [] = none
non_empty (a ∷ as') = some (a ∷ as')

unfoldable pub addresses_of : Text → AddressFilter → Option (List Text)
unfolding cleaned
addresses_of kind absent = none
addresses_of kind (one a) = if text_eq kind logs then some (lower a ∷ []) else none
addresses_of kind (many xs) = if text_eq kind logs then non_empty (cleaned xs) else none

-- A JSON-RPC request; `kind` is `none` where the parameters name none.
pub data Request : Type 0 where
  subscribe : (kind : Option Text) → AddressFilter → Request
  unsubscribe : Option Text → Request
  other_method : Request

abbrev pub kind_or_heads : Option Text → Text
kind_or_heads none = new_heads
kind_or_heads (some k) = k

abbrev pub is_some : {A : Type 0} → Option A → Bool
is_some none = false
is_some (some a) = true

-- `_on_message`, with `_subscribe` and `_reply`: what `enqueue` returns is not looked at.
unfoldable pub on_message : Text → Text → Request → Client → Client
unfolding enqueue addresses_of
on_message fresh_id req_id (subscribe kind filter) c =
    let k = kind_or_heads kind in
    let sub : Subscription = record { kind = k; addresses = addresses_of k filter } in
    (enqueue (reply req_id (subscription_id fresh_id))
      (record c { subs = put fresh_id sub c.subs })).1
on_message fresh_id req_id (unsubscribe none) c = (enqueue (reply req_id (removed false)) c).1
on_message fresh_id req_id (unsubscribe (some sub_id)) c =
    (enqueue (reply req_id (removed (is_some (get sub_id c.subs))))
      (record c { subs = remove sub_id c.subs })).1
on_message fresh_id req_id other_method c = (enqueue (reply req_id method_not_found) c).1

abbrev pub in_filter : Text → Option (List Text) → Bool
in_filter address none = true
in_filter address (some addresses) = contains (lower address) addresses

-- Whether a fan-out goes to a subscription.
unfoldable pub is_for : Content → Subscription → Bool
is_for (header h) sub = text_eq sub.kind new_heads
is_for (log address l) sub = text_eq sub.kind logs && in_filter address sub.addresses

-- `_fanout_head` and `_fanout_log` at one client: the evictions, and the client.
unfoldable pub fanout_to : Content → List (Text × Subscription) → Client → ℕ × Client
unfolding enqueue is_for
fanout_to content [] c = (0, c)
fanout_to content ((sub_id, sub) ∷ subs) c =
    let (evicted, c') = enqueue (notification sub_id content) c in
    let (n, c'') = fanout_to content subs c' in
    let skipped = fanout_to content subs c in
    if is_for content sub then ((if evicted then 1 else 0) + n, c'') else skipped

unfoldable pub fanout_all : Content → List Client → ℕ × List Client
unfolding fanout_to
fanout_all content [] = (0, [])
fanout_all content (c ∷ cs) =
    let (n, c') = fanout_to content c.subs c in
    let (m, cs') = fanout_all content cs in (n + m, c' ∷ cs')

unfoldable pub fanout : Content → Server → Server
unfolding fanout_all
fanout content s =
    let (n, cs) = fanout_all content s.clients in
    record s { clients = cs; dropped_total = s.dropped_total + n }

module _ (abi : Abi) (epoch : Text → Option ℤ) (block_hash : ℤ → Text) where
  -- `build_block_header`; a timestamp that does not parse raises.
  abbrev pub build_block_header : ℕ → Text → Option Header
  build_block_header n ts = elim (epoch ts) [
    | none ↦ none
    | some t ↦ some (record {
      number = hex_int n;
      hash = block_hash (pos n);
      parent_hash = block_hash (sub_ℕ n 1);
      timestamp = hex_of t;
    })
  ]

  abbrev pub sent : Content → Server → Server
  sent content s = let s' = fanout content s in record s' { events_sent = s'.events_sent + 1 }

  -- The rows of a block; one that cannot be rendered is skipped.
  unfoldable pub replay_rows : List TickDataEvent → Server → Server
  unfolding fanout
  replay_rows [] s = s
  replay_rows (row ∷ rows) s = elim (build_raw_log abi row) [
    | err e ↦ replay_rows rows s
    | ok l ↦ replay_rows rows (sent (log row.pool_address l) s)
  ]

  -- A turn of `_replay_loop`, past its sleep.
  unfoldable pub replay_block : Group → Server → Server
  unfolding replay_rows fanout
  replay_block g s = elim (build_block_header g.block_number g.block_timestamp) [
    | none ↦ s
    | some h ↦ replay_rows g.rows (sent (header h) (record s { current_block = g.block_number }))
  ]
