-- ===== src/Ingestion/Pipeline/Delivered.antt =====
-- What the realtime loop leaves in the ring buffer and in the metrics.
use ai_quantum.Common.{
  ℕ, suc, ◌+◌, ◌==◌, ◌≡◌, refl, ◌∙◌, sym, ap, ap₂, Bool, List, [], ◌∷◌, ◌++◌, Option, none, some,
  if◌then◌else◌, Outcome, ok, err, arith, length, last, Outcome-cases, Bool-cases, drop-nil, ◌-◌,
  inl, inr, append_assoc, append-nil, length-append,
}
use ai_quantum.Common.Text.{Text}
use ai_quantum.Core.RingBuffer.{RingBufferProtocol, DequeRingBuffer, deque_protocol, deque_write}
use ai_quantum.Core.RingBuffer.Window.{buf-deque_write, maxlen-deque_write}
use ai_quantum.Ingestion.Event.{TickDataEvent}
use ai_quantum.Ingestion.Whitelist.{ContractWhitelist}
use ai_quantum.Ingestion.Decoders.{Log, Abi, to_int}
use ai_quantum.Ingestion.Router.{RouteError, route_validated}
use ai_quantum.Ingestion.Pipeline.{
  head, log, other, Poll, message, idle, ended, State, start, ingest, on_log, counted, receive,
  run_realtime,
}

-- The event of an answer of the router, if there is one.
abbrev pub event_of : Outcome RouteError (Option TickDataEvent) → List TickDataEvent
event_of (ok (some event)) = event ∷ []
event_of (ok none) = []
event_of (err e) = []

module _ (abi : Abi) (ts_to_iso : ℕ → Option Text) (valid : TickDataEvent → Bool)
    (w : ContractWhitelist) where
  -- The events of a log at the time of the last header, and none before the first header.
  abbrev pub events_at : ℕ → Log → List TickDataEvent
  events_at ts l = if ts == 0 then [] else event_of (route_validated abi ts_to_iso valid w l ts)

  -- The events that come in, in order, up to the end of the loop.
  unfoldable pub delivered : ℕ → List Poll → List TickDataEvent
  delivered ts [] = []
  delivered ts (idle ∷ ps) = delivered ts ps
  delivered ts (ended ∷ ps) = []
  delivered ts (message other ∷ ps) = delivered ts ps
  delivered ts (message (log l) ∷ ps) = events_at ts l ++ delivered ts ps
  delivered ts (message (head t) ∷ ps) = elim (to_int t) [ err e ↦ [] | ok n ↦ delivered n ps ]

  -- How many headers come in.
  unfoldable pub heads : List Poll → ℕ
  heads [] = 0
  heads (idle ∷ ps) = heads ps
  heads (ended ∷ ps) = 0
  heads (message other ∷ ps) = heads ps
  heads (message (log l) ∷ ps) = heads ps
  heads (message (head t) ∷ ps) = elim (to_int t) [ err e ↦ 0 | ok n ↦ heads ps + 1 ]

  module _ (p : RingBufferProtocol TickDataEvent) where
    abbrev pub write_all : p.Buffer → List TickDataEvent → p.Buffer
    write_all b [] = b
    write_all b (e ∷ es) = write_all (p.write e b) es

    write_all-append :
        (b : p.Buffer) (xs ys : List TickDataEvent)
        → write_all b (xs ++ ys) ≡ write_all (write_all b xs) ys
    write_all-append b [] ys = refl
    write_all-append b (x ∷ xs) ys = write_all-append (p.write x b) xs ys

    -- What a log does to the state.
    record Ingests (es : List TickDataEvent) (s s' : State p) : Type 0 where
      buffer : s'.buffer ≡ write_all s.buffer es
      ingested : s'.ingested ≡ s.ingested + length es
      current_ts : s'.current_ts ≡ s.current_ts
      blocks : s'.blocks ≡ s.blocks

    Ingests-ingest :
        (answer : Outcome RouteError (Option TickDataEvent)) (s : State p)
        → Ingests (event_of answer) s (ingest p answer s)
    Ingests-ingest (err e) s = record {
      buffer = refl;
      ingested = omega arith;
      current_ts = refl;
      blocks = refl;
    }
    Ingests-ingest (ok none) s = record {
      buffer = refl;
      ingested = omega arith;
      current_ts = refl;
      blocks = refl;
    }
    Ingests-ingest (ok (some e)) s = record {
      buffer = refl;
      ingested = omega arith;
      current_ts = refl;
      blocks = refl;
    }

    Ingests-on_log :
        (l : Log) (s : State p)
        → Ingests (events_at s.current_ts l) s (on_log p abi ts_to_iso valid w l s)
    Ingests-on_log l s = elim (Bool-cases (s.current_ts == 0)) [
      | inl early ↦
          rw early
            (record { buffer = refl; ingested = omega arith; current_ts = refl; blocks = refl })
      | inr late ↦ rw late (Ingests-ingest (route_validated abi ts_to_iso valid w l s.current_ts) s)
    ]

    abbrev final : List Poll → State p → State p
    final ps s = (run_realtime p abi ts_to_iso valid w ps s).0

    -- The buffer holds what was delivered, written in order, and the counter counts it.
    record Leaves (ps : List Poll) (s : State p) : Type 0 where
      buffer : (final ps s).buffer ≡ write_all s.buffer (delivered s.current_ts ps)
      ingested : (final ps s).ingested ≡ s.ingested + length (delivered s.current_ts ps)
      blocks : (final ps s).blocks ≡ s.blocks + heads ps

    run_realtime-Leaves : (ps : List Poll) (s : State p) → Leaves ps s
    unfolding run_realtime delivered heads
    run_realtime-Leaves [] s = record {
      buffer = refl;
      ingested = omega arith;
      blocks = omega arith;
    }
    run_realtime-Leaves (idle ∷ ps) s =
        let r = run_realtime-Leaves ps s in
        record { buffer = r.buffer; ingested = r.ingested; blocks = r.blocks }
    run_realtime-Leaves (ended ∷ ps) s = record {
      buffer = refl;
      ingested = omega arith;
      blocks = omega arith;
    }
    run_realtime-Leaves (message other ∷ ps) s =
        let r = run_realtime-Leaves ps (counted p abi ts_to_iso valid w s) in
        record { buffer = r.buffer; ingested = r.ingested; blocks = r.blocks }
    run_realtime-Leaves (message (log l) ∷ ps) s =
        let c = counted p abi ts_to_iso valid w s in
        let i = Ingests-on_log l c in
        let r = run_realtime-Leaves ps (on_log p abi ts_to_iso valid w l c) in
        let es = events_at s.current_ts l in
        record {
          buffer =
              r.buffer
              ∙ ap₂ write_all i.buffer (ap (λ (ts : ℕ). delivered ts ps) i.current_ts)
              ∙ sym (write_all-append s.buffer es (delivered s.current_ts ps));
          ingested = omega (
            arith,
            r.ingested,
            i.ingested,
            ap (λ (ts : ℕ). length (delivered ts ps)) i.current_ts,
            length-append es (delivered s.current_ts ps),
          );
          blocks = omega (arith, r.blocks, i.blocks);
        }
    run_realtime-Leaves (message (head t) ∷ ps) s = elim (Outcome-cases (to_int t)) [
      | inl (e, q) ↦ record {
        buffer = rw (q, final, receive, delivered, heads) (rw q);
        ingested = rw (q, final, receive, delivered, heads) (rw (q, receive) (omega arith));
        blocks = rw (q, final, receive, delivered, heads) (rw (q, receive) (omega arith));
      }
      | inr (n, q) ↦
          let c = counted p abi ts_to_iso valid w s in
          let r = run_realtime-Leaves ps (record c { current_ts = n; blocks = c.blocks + 1 }) in
          record {
            buffer = rw (q, final, receive, delivered, heads) (rw (q, receive) r.buffer);
            ingested = rw (q, final, receive, delivered, heads) (rw (q, receive) r.ingested);
            blocks =
                rw (q, final, receive, delivered, heads)
                  (rw (q, receive) (omega (arith, r.blocks)));
          }
    ]

  write_all-deque :
      (b : DequeRingBuffer TickDataEvent) (h es : List TickDataEvent)
      → b.buf ≡ last b.maxlen h
      → (write_all (deque_protocol TickDataEvent) b es).buf ≡ last b.maxlen (h ++ es)
  write_all-deque b h [] e = e ∙ ap (last b.maxlen) (sym (append-nil h))
  write_all-deque b h (x ∷ es) e =
      write_all-deque (deque_write x b) (h ++ x ∷ []) es (
        buf-deque_write b h x e
        ∙ ap (λ (k : ℕ). last k (h ++ x ∷ [])) (sym (maxlen-deque_write b x)))
      ∙ ap₂ last (maxlen-deque_write b x) (append_assoc h (x ∷ []) es)

  -- Realtime ingestion into a deque buffer: when the loop is left, the buffer holds the newest of
  -- the events that came in, at most as many as its capacity and oldest first, where an event came
  -- in if the router gave one for its log at the time of the last header before it; the two
  -- counters count the events that came in and the headers. Malformed logs, and logs before the
  -- first header, leave nothing behind and stop nothing.
  pub run_realtime-deque :
      (n : ℕ) (ps : List Poll)
      → let s =
          (run_realtime
            (deque_protocol TickDataEvent)
            abi
            ts_to_iso
            valid
            w
            ps
            (start (deque_protocol TickDataEvent) (record { maxlen = suc n; buf = [] }))).0 in
        (s.buffer.buf ≡ last (suc n) (delivered 0 ps))
        × (s.ingested ≡ length (delivered 0 ps))
        × (s.blocks ≡ heads ps)
  run_realtime-deque n ps =
      let b : DequeRingBuffer TickDataEvent = record { maxlen = suc n; buf = [] } in
      let r =
        run_realtime-Leaves (deque_protocol TickDataEvent) ps
          (start (deque_protocol TickDataEvent) b) in
      (
        ap (λ (c : DequeRingBuffer TickDataEvent). c.buf) r.buffer
            ∙ write_all-deque b [] (delivered 0 ps) (sym (drop-nil (0 - suc n))),
        omega (arith, r.ingested),
        omega (arith, r.blocks),
      )
