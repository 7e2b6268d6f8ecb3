-- ===== src/Ingestion/Whitelist/Tests.antt =====
-- A whitelist with an address on two lines, and an instance of the lookup theorem.
use ai_quantum.Common.{◌≡◌, refl, List, [], ◌∷◌, none, some, ok, err}
use ai_quantum.Common.Text.{Text, codes, lower, text_eq}
use ai_quantum.Common.Dict.{put}
use ai_quantum.Ingestion.Event.{uniswap_v3, aave_v3}
use ai_quantum.Ingestion.Whitelist.{
  RawMeta, ContractWhitelist, missing_protocol, entry_of, from_yaml, find,
}
use ai_quantum.Ingestion.Whitelist.Lookup.{last_line, find-from_yaml}

abbrev pool : RawMeta
pool = record { protocol = some uniswap_v3; token0 = some (codes "0xC0"); token1 = none }

abbrev lending : RawMeta
lending = record { protocol = some aave_v3; token0 = none; token1 = none }

abbrev nameless : RawMeta
nameless = record { protocol = none; token0 = none; token1 = none }

abbrev lines : List (Text × RawMeta)
lines = (codes "0xAb", pool) ∷ (codes "0xaB", lending) ∷ []

abbrev loaded : ContractWhitelist
loaded = (codes "0xab", entry_of aave_v3 lending) ∷ []

loads : from_yaml lines ≡ ok loaded
unfolding from_yaml lower put text_eq
loads = refl

needs_protocol : from_yaml ((codes "0xab", nameless) ∷ []) ≡ err missing_protocol
unfolding from_yaml
needs_protocol = refl

find-from_yaml_example :
    (find loaded (codes "0xAB") ≡ last_line none lines (codes "0xAB"))
    × (find loaded (lower (codes "0xAB")) ≡ find loaded (codes "0xAB"))
find-from_yaml_example = find-from_yaml lines loaded (codes "0xAB") loads
