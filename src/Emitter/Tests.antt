-- ===== src/Emitter/Tests.antt =====
-- Runs of the emitter at small inputs, and instances of its theorems.
use ai_quantum.Common.{
  ℕ, ◌≡◌, ◌≤◌, ◌<◌, refl, true, List, [], ◌∷◌, none, some, ok, err, arith, ◌==◌, if◌then◌else◌,
}
use ai_quantum.Common.Int.{ℤ, pos}
use ai_quantum.Common.Text.{Text, codes, text_eq}
use ai_quantum.Common.Eq.{text_eq_instance}
use ai_quantum.Common.Dict.{get, put}
use ai_quantum.Common.Set.{of_list, add, contains, sorted, IsSorted}
use ai_quantum.Common.Float.Exact.{bound, sixteenths, sixteenths_laws}
use ai_quantum.Ingestion.Event.{TickDataEvent, borrow}
use ai_quantum.Engine.Baseline.{borrow_activity}
use ai_quantum.Emitter.Payload.{yellow, FragilityAlert, below_yellow, alert_level, format_alert}
use ai_quantum.Emitter.Webhook.{Post, truthy, falsy, raises, deliver}
use ai_quantum.Emitter.Webhook.Delivery.{Report, deliver-Report}
use ai_quantum.Emitter.Pipeline.{evaluate_and_emit}
use ai_quantum.Emitter.Pipeline.Thresholds.{level_of_count, expected, evaluate_by_count}
use ai_quantum.Emitter.Registry.{SubscriberRegistry, File, saved, text_le, load, all, has}
use ai_quantum.Emitter.Registry.Restart
use ai_quantum.Emitter.Registry.Restart.{Change, registry_survives_restart}
use ai_quantum.Emitter.Api.{Endpoint, Request, Response, App, handle, serve}
use ai_quantum.Emitter.Api.RateLimit.{accepted, accepted-le-rate_limit}

abbrev now : Text
now = codes "2023-03-11T00:00:00Z"

abbrev aave : List Text
aave = codes "aave_v3" ∷ []

-- A score of 75, in sixteenths.
abbrev warning : FragilityAlert ℤ
warning = record {
  timestamp = now;
  fragility_score = pos 1200;
  alert_level = yellow;
  trigger_protocols = aave;
}

warns : format_alert (λ p. true) now (pos 1200) aave none ≡ ok warning
unfolding format_alert alert_level
warns = refl

too_low : format_alert (λ (p : FragilityAlert ℤ). true) now (pos 1119) aave none ≡ err below_yellow
unfolding format_alert alert_level
too_low = refl

-- A time-out, then success.
abbrev second_time : ℕ → Post
second_time k = if k == 1 then truthy else raises

retried : deliver 1 second_time ≡ (true, 2)
unfolding deliver
retried = refl

deliver-Report_example : Report second_time 0 2 (deliver 1 second_time)
deliver-Report_example = deliver-Report 1 second_time

abbrev one_down : Text → ℕ → ℕ → Post
one_down url i k = if i == 0 then falsy else second_time k

abbrev loan : TickDataEvent
loan = record {
  block_number = 1;
  block_timestamp = codes "";
  protocol = codes "aave_v3";
  event_type = codes "borrow";
  pool_address = codes "0xaa";
  token0 = codes "";
  token1 = codes "";
  amount0 = codes "1";
  amount1 = codes "0";
  tx_hash = codes "0xbb";
  log_index = 0;
}

abbrev loans : ℕ → List TickDataEvent
loans ℕ.zero = []
loans (ℕ.suc n) = loan ∷ loans n

few : borrow_activity (loans 28) < bound
unfolding borrow_activity borrow text_eq
few = omega arith

evaluate_by_count_example :
    evaluate_and_emit (λ p. true) now one_down (loans 28) (codes "a" ∷ []) aave none
    ≡ expected sixteenths_laws
        (λ p. true)
        now
        one_down
        (borrow_activity (loans 28))
        (codes "a" ∷ [])
        aave
        none
        (level_of_count (borrow_activity (loans 28)))
evaluate_by_count_example =
    evaluate_by_count sixteenths_laws (λ p. true) now one_down (loans 28) (codes "a" ∷ []) aave none
      few

abbrev changes : List Change
changes = Change.add (codes "b") ∷ Change.remove (codes "a") ∷ Change.add (codes "a") ∷ []

abbrev at_start : File
at_start = saved (codes "a" ∷ [])

abbrev start : SubscriberRegistry
start = record { file = some at_start; subs = codes "a" ∷ [] }

loads : load (some at_start) ≡ ok start
unfolding load of_list add contains
loads = refl

registry_survives_restart_example :
    let r = Restart.run changes start in
    (has (codes "a") r ≡ Restart.subscribed (has (codes "a") start) changes (codes "a"))
    × (contains (codes "a") (all r) ≡ has (codes "a") r)
    × IsSorted text_le (all r)
    × Restart.Reloads r (codes "a")
registry_survives_restart_example =
    registry_survives_restart at_start start changes (codes "a") loads

abbrev ask : ℕ → Request
ask minute = record { key = some (codes "k"); minute = minute; endpoint = Endpoint.subscribers }

abbrev fresh : App
fresh = record { registry = record { file = none; subs = [] }; rate = [] }

-- A limit of two in a minute.
limited :
    (serve (codes "k" ∷ []) 2 (ask 5 ∷ ask 5 ∷ ask 5 ∷ ask 6 ∷ []) fresh).0
    ≡ Response.listing [] ∷ Response.listing [] ∷ Response.too_many ∷ Response.listing [] ∷ []
unfolding serve handle contains text_eq get all sorted put
limited = refl

accepted-le-rate_limit_example :
    accepted (codes "k" ∷ []) 2 (codes "k") 5 (ask 5 ∷ ask 5 ∷ ask 5 ∷ ask 6 ∷ []) fresh ≤ 2
accepted-le-rate_limit_example =
    accepted-le-rate_limit (codes "k" ∷ []) 2 (codes "k") 5 (ask 5 ∷ ask 5 ∷ ask 5 ∷ ask 6 ∷ [])
      fresh refl (omega arith, (omega arith, (omega arith, (omega arith, tt))))
