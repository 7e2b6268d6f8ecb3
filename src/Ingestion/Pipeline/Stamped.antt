-- ===== src/Ingestion/Pipeline/Stamped.antt =====
-- The timestamps of the events that the realtime loop lets in.
use ai_quantum.Common.{
  ℕ, zero, suc, ◌<◌, ◌==◌, ◌≡◌, refl, sym, Bool, true, List, [], ◌∷◌, ◌++◌, Option, none, some,
  Outcome, ok, err, arith, length, drop, subst, Outcome-cases, Bool-cases, Option-cases, ◌-◌, inl,
  inr,
}
use ai_quantum.Common.Text.{Text}
use ai_quantum.Core.RingBuffer.{deque_protocol}
use ai_quantum.Ingestion.Event.{TickDataEvent}
use ai_quantum.Ingestion.Whitelist.{ContractWhitelist, PoolMeta, find}
use ai_quantum.Ingestion.Decoders.{from_option, Log, DecodeError, Abi, to_int}
use ai_quantum.Ingestion.Decoders.Uniswap
use ai_quantum.Ingestion.Decoders.Aave
use ai_quantum.Ingestion.Router.{route, route_validated, validated, log_address}
use ai_quantum.Ingestion.Pipeline.{
  head, log, other, Poll, message, idle, ended, start, run_realtime,
}
use ai_quantum.Ingestion.Pipeline.Delivered.{event_of, events_at, delivered, run_realtime-deque}

module _ (abi : Abi) (ts_to_iso : ℕ → Option Text) (valid : TickDataEvent → Bool)
    (w : ContractWhitelist) where
  -- An event that the validator accepts, at a time other than the epoch.
  pub record IsStamped (e : TickDataEvent) : Type 0 where
    pub is_valid : valid e ≡ true
    pub stamp : (ts : ℕ) × (0 < ts) × (ts_to_iso ts ≡ some e.block_timestamp)

  abbrev pub AreStamped : List TickDataEvent → Type 0
  AreStamped [] = Unit
  AreStamped (e ∷ es) = IsStamped e × AreStamped es

  stamp-decode_uniswap :
      (l : Log) (m : PoolMeta) (ts : ℕ) (e : TickDataEvent)
      → Uniswap.decode abi ts_to_iso l m ts ≡ ok e
      → ts_to_iso ts ≡ some e.block_timestamp
  unfolding Uniswap.decode from_option
  stamp-decode_uniswap l m ts e h = ground arith

  stamp-decode_aave :
      (l : Log) (m : PoolMeta) (ts : ℕ) (e : TickDataEvent)
      → Aave.decode abi ts_to_iso l m ts ≡ ok e
      → ts_to_iso ts ≡ some e.block_timestamp
  unfolding Aave.decode from_option
  stamp-decode_aave l m ts e h = ground arith

  stamp-route :
      (l : Log) (ts : ℕ) (e : TickDataEvent)
      → route abi ts_to_iso valid w l ts ≡ ok (some e)
      → ts_to_iso ts ≡ some e.block_timestamp
  unfolding route
  stamp-route l ts e h = elim (Option-cases (find w (log_address l))) [
    | inl foreign ↦ ground (arith, foreign)
    | inr (entry, q) ↦ ground (
      arith,
      q,
      stamp-decode_uniswap l entry.pool_meta ts e,
      stamp-decode_aave l entry.pool_meta ts e,
    )
  ]

  stamp-validated :
      (l : Log) (ts : ℕ) (answer : Outcome DecodeError (Option TickDataEvent))
      → route abi ts_to_iso valid w l ts ≡ answer
      → 0 < ts
      → AreStamped (event_of (validated abi ts_to_iso valid w answer))
  stamp-validated l ts (err e) h p = tt
  stamp-validated l ts (ok none) h p = tt
  stamp-validated l ts (ok (some e)) h p = elim (Bool-cases (valid e)) [
    | inl good ↦ rw good (record { is_valid = good; stamp = (ts, p, stamp-route l ts e h) }, tt)
    | inr bad ↦ rw bad tt
  ]

  AreStamped-append :
      (xs ys : List TickDataEvent) → AreStamped xs → AreStamped ys → AreStamped (xs ++ ys)
  AreStamped-append [] ys h k = k
  AreStamped-append (x ∷ xs) ys h k = (h.0, AreStamped-append xs ys h.1 k)

  events_at-AreStamped : (ts : ℕ) (l : Log) → AreStamped (events_at abi ts_to_iso valid w ts l)
  unfolding route_validated
  events_at-AreStamped ts l = elim (Bool-cases (ts == 0)) [
    | inl early ↦ rw early tt
    | inr late ↦
        rw late (stamp-validated l ts (route abi ts_to_iso valid w l ts) refl (ground arith))
  ]

  delivered-AreStamped :
      (ts : ℕ) (ps : List Poll) → AreStamped (delivered abi ts_to_iso valid w ts ps)
  unfolding delivered
  delivered-AreStamped ts [] = tt
  delivered-AreStamped ts (idle ∷ ps) = delivered-AreStamped ts ps
  delivered-AreStamped ts (ended ∷ ps) = tt
  delivered-AreStamped ts (message other ∷ ps) = delivered-AreStamped ts ps
  delivered-AreStamped ts (message (log l) ∷ ps) =
      AreStamped-append (events_at abi ts_to_iso valid w ts l)
        (delivered abi ts_to_iso valid w ts ps) (events_at-AreStamped ts l)
        (delivered-AreStamped ts ps)
  delivered-AreStamped ts (message (head t) ∷ ps) = elim (Outcome-cases (to_int t)) [
    | inl (e, q) ↦ rw (q, delivered) tt
    | inr (n, q) ↦ rw (q, delivered) (delivered-AreStamped n ps)
  ]

  AreStamped-drop : (k : ℕ) (es : List TickDataEvent) → AreStamped es → AreStamped (drop k es)
  AreStamped-drop zero es h = h
  AreStamped-drop (suc k) [] h = tt
  AreStamped-drop (suc k) (e ∷ es) h = AreStamped-drop k es h.1

  -- Whatever the socket sends, every event in the deque buffer when the loop is left has passed the
  -- validator, and its timestamp is that of a time other than the epoch.
  pub run_realtime-AreStamped :
      (n : ℕ) (ps : List Poll)
      → AreStamped
          (run_realtime (deque_protocol TickDataEvent) abi ts_to_iso valid w ps (
            start
              (deque_protocol TickDataEvent)
              (record { maxlen = suc n; buf = [] }))).0.buffer.buf
  run_realtime-AreStamped n ps =
      let h =
        AreStamped-drop (length (delivered abi ts_to_iso valid w 0 ps) - suc n)
          (delivered abi ts_to_iso valid w 0 ps) (delivered-AreStamped 0 ps) in
      subst AreStamped (sym (run_realtime-deque abi ts_to_iso valid w n ps).0) h
