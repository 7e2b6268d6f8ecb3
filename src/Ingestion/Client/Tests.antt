-- ===== src/Ingestion/Client/Tests.antt =====
-- Environments with and without a node's URL.
use ai_quantum.Common.{List, [], ◌∷◌, none, ok, err, ◌≡◌, refl}
use ai_quantum.Common.Text.{Text, codes, strip, text_eq}
use ai_quantum.Common.Dict.{get}
use ai_quantum.Ingestion.Client.{wss_url_required, load}

abbrev one_url : List (Text × Text)
one_url = (codes "WSS_URL", codes " ws://localhost:8546 ") ∷ (codes "ALCHEMY_KEY", []) ∷ []

loads_url :
    load one_url
    ≡ ok (record {
      wss_url = codes "ws://localhost:8546";
      wss_fallback_url = none;
      alchemy_key = none;
      etherscan_api_key = none;
    })
unfolding load strip text_eq get
loads_url = refl

needs_url : load ((codes "WSS_URL", codes "  ") ∷ []) ≡ err wss_url_required
unfolding load strip text_eq get
needs_url = refl
