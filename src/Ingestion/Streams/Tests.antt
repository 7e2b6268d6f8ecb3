-- ===== src/Ingestion/Streams/Tests.antt =====
-- Runs of the block stream.
use ai_quantum.Common.{◌≡◌, refl, List, [], ◌∷◌, none, some, Option}
use ai_quantum.Common.Text.{Text, codes, text_eq}
use ai_quantum.Common.Text.Hex.{hex}
use ai_quantum.Ingestion.Streams.{
  Hash, bytes, other, to_hex, RawHeader, Message, Header, header_of, is_own, ended, closed,
  key_error, consume,
}

abbrev header : Option Hash → RawHeader
header h = record { number = some 17; hash = h; timestamp = some 5; parent_hash = none }

abbrev message : Text → RawHeader → Message
message id h = record { subscription = some id; result = some h }

abbrev streamed : Text → Header
streamed h = record { number = 17; hash = h; timestamp = 5; parent_hash = [] }

abbrev messages : List Message
messages =
    message (codes "0x2") (header none)
    ∷ message (codes "0x1") (header (some (bytes (171 ∷ []))))
    ∷ message (codes "0x1") (header (some (other (codes "h"))))
    ∷ message (codes "0x1")
        (record { number = none; hash = none; timestamp = none; parent_hash = none })
    ∷ []

-- The foreign message is passed over; the loop stops at the header without its keys.
consumes_all :
    consume (codes "0x1") none messages
    ≡ (streamed (codes "0xab") ∷ streamed (codes "h") ∷ [], key_error)
unfolding consume is_own header_of to_hex text_eq hex
consumes_all = refl

consumes_one : consume (codes "0x1") (some 1) messages ≡ (streamed (codes "0xab") ∷ [], closed)
unfolding consume is_own header_of to_hex text_eq hex
consumes_one = refl

ends_unsubscribed : consume (codes "0x3") none messages ≡ ([], ended)
unfolding consume is_own header_of to_hex text_eq hex
ends_unsubscribed = refl
