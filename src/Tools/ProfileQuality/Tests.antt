-- ===== src/Tools/ProfileQuality/Tests.antt =====
-- A window of three events in two blocks.
use ai_quantum.Common.{
  leb, err, Bool, true, false, ℕ, ◌*◌, ◌≡◌, refl, List, [], ◌∷◌, Option, none, some, ok, length,
}
use ai_quantum.Common.Int.{ℤ, pos, sub_ℕ}
use ai_quantum.Common.Text.{Text, codes, text_eq}
use ai_quantum.Common.Float.Exact.{sixteenths}
use ai_quantum.Common.Dict.{keys, get, put}
use ai_quantum.Common.Set.{contains, sorted, insert}
use ai_quantum.Ingestion.Event.{TickDataEvent}
use ai_quantum.Tools.ProfileQuality.{QualityProfile, type_error, profile}
use ai_quantum.Tools.ProfileQuality.Profiled.{IsProfile, Subtracts, profile-IsProfile}

abbrev event_at : ℕ → Text → Text → TickDataEvent
event_at block time protocol = record {
  block_number = block;
  block_timestamp = time;
  protocol = protocol;
  event_type = codes "swap";
  pool_address = codes "0xab";
  token0 = codes "0xc0";
  token1 = codes "0x00";
  amount0 = codes "1";
  amount1 = codes "2";
  tx_hash = codes "0xdd";
  log_index = 0;
}

abbrev window : List TickDataEvent
window =
    event_at 12 (codes "aaaa") (codes "aave_v3")
    ∷ event_at 10 (codes "a") (codes "uniswap_v3")
    ∷ event_at 12 (codes "aa") (codes "aave_v3")
    ∷ []

-- A text's time is its length, and a second is thirty-two units.
abbrev time_of : Text → Option ℕ
time_of text = some (length text)

-- A time from ten on has a zone.
abbrev has_zone : ℕ → Bool
has_zone t = leb 10 t

abbrev where_same : {A : Type 0} → Bool → Bool → A → Option A
where_same true true x = some x
where_same false false x = some x
where_same true false x = none
where_same false true x = none

abbrev seconds_to : ℕ → ℕ → Option ℤ
seconds_to s t = where_same (has_zone s) (has_zone t) (sub_ℕ (t * 256) (s * 256))

where_same_lem : {A : Type 0} (a b : Bool) (x : A) → a ≡ b → (y : A) × (where_same a b x ≡ some y)
where_same_lem true true x h = (x, refl)
where_same_lem false false x h = (x, refl)
where_same_lem true false x h = absurd (cc h)
where_same_lem false true x h = absurd (cc h)

subtracts : Subtracts time_of seconds_to has_zone
subtracts s t h = where_same_lem (has_zone s) (has_zone t) (sub_ℕ (t * 256) (s * 256)) h

mixed_zones :
    profile time_of seconds_to
      (event_at 10 (codes "a") (codes "x") ∷ event_at 12 (codes "aaaaaaaaaaaa") (codes "x") ∷ [])
      none
    ≡ err type_error
unfolding profile text_eq keys get put contains sorted insert
mixed_zones = refl

abbrev the_profile : QualityProfile ℤ
the_profile = record {
  total_events = 3;
  per_protocol = (codes "aave_v3", 2) ∷ (codes "uniswap_v3", 1) ∷ [];
  per_event_type = (codes "swap", 3) ∷ [];
  n_blocks = 2;
  block_range = (10, 12);
  block_drop_rate = pos 6;
  timestamp_gaps = record { from_block = 10; to_block = 12; seconds = pos 768 } ∷ [];
  gaps_over_30s = record { from_block = 10; to_block = 12; seconds = pos 768 } ∷ [];
}

window_profile : profile time_of seconds_to window none ≡ ok the_profile
unfolding profile text_eq keys get put contains sorted insert
window_profile = refl

profile-IsProfile_example :
    (p : QualityProfile ℤ) × (profile time_of seconds_to window none ≡ ok p)
    × IsProfile time_of seconds_to window p
profile-IsProfile_example =
    profile-IsProfile time_of seconds_to has_zone false
      (event_at 12 (codes "aaaa") (codes "aave_v3"))
      (event_at 10 (codes "a") (codes "uniswap_v3")
        ∷ event_at 12 (codes "aa") (codes "aave_v3")
        ∷ [])
      none subtracts ((4, refl, refl), ((1, refl, refl), ((2, refl, refl), tt)))
