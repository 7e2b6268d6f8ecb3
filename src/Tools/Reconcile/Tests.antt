-- ===== src/Tools/Reconcile/Tests.antt =====
-- A buffer of two events, of which the chain has one.
use ai_quantum.Common.{ℕ, ◌≡◌, refl, List, [], ◌∷◌}
use ai_quantum.Common.Int.{ℤ, pos}
use ai_quantum.Common.Text.{Text, codes, text_eq, lower}
use ai_quantum.Common.Dict.{get, put}
use ai_quantum.Common.Set.{contains, add, of_list, IsUnique}
use ai_quantum.Common.Float.Exact.{sixteenths}
use ai_quantum.Ingestion.Event.{TickDataEvent}
use ai_quantum.Tools.VerifyFixtures.{key_eq, key_instance}
use ai_quantum.Tools.Reconcile.{reconcile, event_key, norm, norm_eq}
use ai_quantum.Tools.Reconcile.Matched.{IsReconciled, sampled, fetched, keys_of, reconcile_lem}

abbrev event : Text → Text → TickDataEvent
event tx amount = record {
  block_number = 17;
  block_timestamp = codes "2023-03-11T00:00:00Z";
  protocol = codes "uniswap_v3";
  event_type = codes "swap";
  pool_address = codes "0xab";
  token0 = codes "0xc0";
  token1 = codes "0xc1";
  amount0 = amount;
  amount1 = codes "7";
  tx_hash = tx;
  log_index = 3;
}

abbrev buffer : List TickDataEvent
buffer = event (codes "0xDD") (codes "5") ∷ event (codes "0xee") (codes "6") ∷ []

abbrev fetch : ℕ → List TickDataEvent
fetch n = event (codes "0xdd") (codes "5") ∷ event (codes "0xee") (codes "9") ∷ []

abbrev gate : ℤ
gate = pos 15

once : IsUnique (keys_of (fetched fetch (17 ∷ [])))
unfolding contains event_key lower key_eq text_eq
once = (refl, (refl, tt))

matches_one : (reconcile gate buffer (17 ∷ []) fetch).matched ≡ 1
unfolding reconcile get put contains add of_list event_key lower key_eq text_eq norm norm_eq
matches_one = refl

reconcile_lem_example :
    IsReconciled gate
      (sampled (17 ∷ []) buffer)
      (fetched fetch (17 ∷ []))
      (reconcile gate buffer (17 ∷ []) fetch)
reconcile_lem_example = reconcile_lem gate buffer (17 ∷ []) fetch once refl
