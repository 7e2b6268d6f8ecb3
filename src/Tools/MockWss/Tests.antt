-- ===== src/Tools/MockWss/Tests.antt =====
-- A raw log built from a swap, and an instance of the round trip, with an ABI codec that is just
-- large enough: it knows numbers below 256, one byte each.
use ai_quantum.Common.{
  ℕ, ◌≡◌, refl, true, List, [], ◌∷◌, Option, none, some, ok, err, if◌then◌else◌, ltb, arith, inl,
  Option-cases, inr, Bool-cases, subst, ap,
}
use ai_quantum.Common.Int.{pos, negsuc}
use ai_quantum.Common.Text.{Text, codes, text_eq, lower}
use ai_quantum.Common.Text.Hex.{AreBytes}
use ai_quantum.Common.Text.Number.{int_of, read_from}
use ai_quantum.Common.Dict.{get}
use ai_quantum.Ingestion.Event.{TickDataEvent, swap, uniswap_v3}
use ai_quantum.Ingestion.Whitelist.{WhitelistEntry, ContractWhitelist, find}
use ai_quantum.Ingestion.Decoders.{AbiValue, number, account, truth, Abi, AbiLaws, Log}
use ai_quantum.Ingestion.Router.{route}
use ai_quantum.Tools.MockWss.RawLog.{raw_log, encode_event, build_raw_log, bad_amount}
use ai_quantum.Tools.MockWss.RoundTrip.{swapped_back, route-build_raw_log}

abbrev byte_before : ℕ → Option (List ℕ) → Option (List ℕ)
byte_before n none = none
byte_before n (some bs) = if ltb n 256 then some (n ∷ bs) else none

unfoldable encode_bytes : List AbiValue → Option (List ℕ)
encode_bytes [] = some []
encode_bytes (number (pos n) ∷ vs) = byte_before n (encode_bytes vs)
encode_bytes (v ∷ vs) = none

unfoldable decode_bytes : List ℕ → List AbiValue
decode_bytes [] = []
decode_bytes (b ∷ bs) = number (pos b) ∷ decode_bytes bs

abbrev byte_abi : Abi
byte_abi = record { encode = λ ts vs. encode_bytes vs; decode = λ ts bs. some (decode_bytes bs) }

-- Both laws at once, by induction on the values.
abbrev Undone : List AbiValue → List ℕ → Type 0
Undone vs p = (decode_bytes p ≡ vs) × AreBytes p

Undone-byte :
    (n : ℕ) (vs : List AbiValue) (bs p : List ℕ)
    → byte_before n (some bs) ≡ some p
    → Undone vs bs
    → Undone (number (pos n) ∷ vs) p
unfolding decode_bytes
Undone-byte n vs bs p h u = elim (Bool-cases (ltb n 256)) [
  | inl small ↦
      let same : n ∷ bs ≡ p = ground (arith, small) in
      subst (Undone (number (pos n) ∷ vs)) same
        (ap (λ (t : List AbiValue). number (pos n) ∷ t) u.0, (ground arith, u.1))
  | inr large ↦ ground (arith, large)
]

encode_bytes_lem : (vs : List AbiValue) (p : List ℕ) → encode_bytes vs ≡ some p → Undone vs p
unfolding encode_bytes decode_bytes
encode_bytes_lem [] p h = let same : [] ≡ p = cc h in subst (Undone []) same (refl, tt)
encode_bytes_lem (number (pos n) ∷ vs) p h = elim (Option-cases (encode_bytes vs)) [
  | inl fails ↦ let bad : none ≡ some p = rw fails at h in cc bad
  | inr (bs, e) ↦ Undone-byte n vs bs p (rw e at h) (encode_bytes_lem vs bs e)
]
encode_bytes_lem (number (negsuc n) ∷ vs) p h = cc h
encode_bytes_lem (account a ∷ vs) p h = cc h
encode_bytes_lem (truth b ∷ vs) p h = cc h

byte_laws : AbiLaws byte_abi
byte_laws = record {
  decode-encode = λ ts vs p h. let (e, b) = encode_bytes_lem vs p h in rw e;
  encode-AreBytes = λ ts vs p h. let (e, b) = encode_bytes_lem vs p h in b;
}

abbrev row : TickDataEvent
row = record {
  block_number = 17;
  block_timestamp = codes "2023-03-11T00:00:00Z";
  protocol = codes "uniswap_v3";
  event_type = codes "swap";
  pool_address = codes "0xAB";
  token0 = codes "0xc0";
  token1 = codes "0xc1";
  amount0 = codes "5";
  amount1 = codes "7";
  tx_hash = codes "0xdd";
  log_index = 3;
}

abbrev entry : WhitelistEntry
entry = record {
  protocol = codes "uniswap_v3";
  pool_meta = record { token0 = codes "0xC0"; token1 = codes "0xc1" };
}

abbrev listed : ContractWhitelist
listed = (codes "0xab", entry) ∷ []

abbrev log : Log
log =
    raw_log row (encode_event swap (pos 5) (pos 7) (codes "0xc0") (codes "0xc1")).tail
      (5 ∷ 7 ∷ 0 ∷ 0 ∷ 0 ∷ [])

builds : build_raw_log byte_abi row ≡ ok log
unfolding build_raw_log encode_event encode_bytes swap text_eq int_of read_from
builds = refl

refuses : build_raw_log byte_abi (record row { amount0 = codes "1.5" }) ≡ err bad_amount
unfolding build_raw_log int_of read_from
refuses = refl

reads_5 : int_of (codes "5") ≡ some (pos 5)
unfolding int_of read_from
reads_5 = refl

reads_7 : int_of (codes "7") ≡ some (pos 7)
unfolding int_of read_from
reads_7 = refl

is_listed : find listed (codes "0xAB") ≡ some entry
unfolding find get text_eq lower
is_listed = refl

is_uniswap : entry.protocol ≡ uniswap_v3
unfolding uniswap_v3
is_uniswap = refl

is_swap : row.event_type ≡ swap
unfolding swap
is_swap = refl

abbrev no_time : ℕ → Option Text
no_time n = some (codes "2023-03-11T00:00:00Z")

route-build_raw_log_example :
    route byte_abi no_time (λ e. true) listed log 1678492800
    ≡ ok (
        some (
          swapped_back byte_abi byte_laws no_time row
            (pos 5)
            (pos 7)
            entry.pool_meta
            (codes "2023-03-11T00:00:00Z")))
route-build_raw_log_example =
    route-build_raw_log byte_abi byte_laws no_time (λ e. true) listed row log (pos 5) (pos 7) entry
      1678492800 (codes "2023-03-11T00:00:00Z") refl (inl is_swap) reads_5 reads_7 is_listed
      is_uniswap builds
