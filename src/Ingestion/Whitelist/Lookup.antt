-- ===== src/Ingestion/Whitelist/Lookup.antt =====
-- Addresses match whatever their case, and the last line for an address counts.
use ai_quantum.Common.{
  ◌≡◌, ◌∙◌, ap, List, [], ◌∷◌, Option, none, some, ok, arith, if◌then◌else◌, Option-cases, inl, inr,
}
use ai_quantum.Common.Text.{Text, lower, lower_idem}
use ai_quantum.Common.Eq.{text_eq_instance, eqb}
use ai_quantum.Common.Dict.{get, put, get-put}
use ai_quantum.Ingestion.Whitelist.{
  WhitelistEntry, RawMeta, ContractWhitelist, entry_of, load_from, from_yaml, find,
}

abbrev pub some_entry : Option Text → RawMeta → Option WhitelistEntry → Option WhitelistEntry
some_entry none meta before = before
some_entry (some p) meta before = some (entry_of p meta)

-- The entry of the last line that names the address in any case, or `before`.
pub last_line : Option WhitelistEntry → List (Text × RawMeta) → Text → Option WhitelistEntry
last_line before [] address = before
last_line before ((a, meta) ∷ raw) address =
    last_line
      (if eqb (lower a) (lower address) then some_entry meta.protocol meta before else before) raw
      address

find-load_from :
    (raw : List (Text × RawMeta)) (w : ContractWhitelist) (w' : ContractWhitelist) (address : Text)
    → load_from w raw ≡ ok w'
    → find w' address ≡ last_line (find w address) raw address
unfolding load_from find last_line
find-load_from [] w w' address h = ground arith
find-load_from ((a, meta) ∷ raw) w w' address h = elim (Option-cases meta.protocol) [
  | inl missing ↦ ground (arith, missing)
  | inr (p, e) ↦
      find-load_from raw (put (lower a) (entry_of p meta) w) w' address (ground (arith, e))
      ∙ ap (λ (before : Option WhitelistEntry). last_line before raw address)
          (get-put (lower a) (lower address) (entry_of p meta) w ∙ rw e)
]

-- A lookup in a loaded whitelist finds the entry of the last line for that address, where neither
-- the case of the file nor that of the lookup matters, and nothing for an address with no line.
pub find-from_yaml :
    (raw : List (Text × RawMeta)) (w : ContractWhitelist) (address : Text)
    → from_yaml raw ≡ ok w
    → (find w address ≡ last_line none raw address) × (find w (lower address) ≡ find w address)
unfolding from_yaml find get
find-from_yaml raw w address h =
    (find-load_from raw [] w address h, ap (λ (t : Text). get t w) (lower_idem address))
