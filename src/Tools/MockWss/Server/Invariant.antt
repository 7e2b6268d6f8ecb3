-- ===== src/Tools/MockWss/Server/Invariant.antt =====
-- The bound on the clients' queues, whatever the clients and the replay do.
use ai_quantum.Common.{
  ℕ, zero, suc, ◌+◌, ◌≤◌, ◌≡◌, refl, sym, List, [], ◌∷◌, ◌++◌, Option, none, some, ok, err, arith,
  length, drop, map, length-drop, length-last, subst, ◌⊎◌, Option-cases, Outcome-cases, inl, inr,
}
use ai_quantum.Common.Int.{ℤ}
use ai_quantum.Common.Text.{Text}
use ai_quantum.Ingestion.Event.{TickDataEvent}
use ai_quantum.Ingestion.Decoders.{Abi}
use ai_quantum.Tools.MockWss.RawLog.{build_raw_log}
use ai_quantum.Tools.MockWss.Blocks.{Group}
use ai_quantum.Tools.MockWss.Server.{
  Content, header, log, Request, subscribe, unsubscribe, other_method, Client, Server, on_message,
  fanout, max_queue_per_client, build_block_header, sent, replay_rows, replay_block,
}
use ai_quantum.Tools.MockWss.Server.Fanout.{
  AreBounded, after, fanout_lem, length-enqueue, notifications,
}

-- What may happen between two blocks of the replay. A client is named by its place.
pub data Happening : Type 0 where
  connects : Happening
  disconnects : ℕ → Happening
  -- The writer takes the oldest message of a client.
  takes : ℕ → Happening
  asks : ℕ → (fresh_id req_id : Text) → Request → Happening
  replays : Group → Happening

abbrev pub remove_at : ℕ → List Client → List Client
remove_at i [] = []
remove_at zero (x ∷ xs) = xs
remove_at (suc i) (x ∷ xs) = x ∷ remove_at i xs

abbrev pub change_at : ℕ → (Client → Client) → List Client → List Client
change_at i f [] = []
change_at zero f (c ∷ cs) = f c ∷ cs
change_at (suc i) f (c ∷ cs) = c ∷ change_at i f cs

abbrev pub take_one : Client → Client
take_one c = record c { queue = drop 1 c.queue }

abbrev pub new_client : Client
new_client = record { queue = []; subs = []; dropped = 0 }

abbrev Bounded : Client → Type 0
Bounded c = length c.queue ≤ max_queue_per_client

Bounded-on_message :
    (fresh_id req_id : Text) (r : Request) (c : Client)
    → Bounded c
    → Bounded (on_message fresh_id req_id r c)
unfolding on_message
Bounded-on_message fresh_id req_id (subscribe kind filter) c h = length-enqueue _ _ h
Bounded-on_message fresh_id req_id (unsubscribe none) c h = length-enqueue _ _ h
Bounded-on_message fresh_id req_id (unsubscribe (some sub_id)) c h = length-enqueue _ _ h
Bounded-on_message fresh_id req_id other_method c h = length-enqueue _ _ h

AreBounded-change_at :
    (i : ℕ) (f : Client → Client) (cs : List Client)
    → ((c : Client) → Bounded c → Bounded (f c))
    → AreBounded cs
    → AreBounded (change_at i f cs)
AreBounded-change_at i f [] h k = tt
AreBounded-change_at zero f (c ∷ cs) h k = (h c k.0, k.1)
AreBounded-change_at (suc i) f (c ∷ cs) h k = (k.0, AreBounded-change_at i f cs h k.1)

AreBounded-remove_at : (i : ℕ) (cs : List Client) → AreBounded cs → AreBounded (remove_at i cs)
AreBounded-remove_at i [] k = tt
AreBounded-remove_at zero (c ∷ cs) k = k.1
AreBounded-remove_at (suc i) (c ∷ cs) k = (k.0, AreBounded-remove_at i cs k.1)

AreBounded-connect : (cs : List Client) → AreBounded cs → AreBounded (cs ++ new_client ∷ [])
AreBounded-connect [] k = (omega arith, tt)
AreBounded-connect (c ∷ cs) k = (k.0, AreBounded-connect cs k.1)

pub AreBounded-after : (content : Content) (cs : List Client) → AreBounded (map (after content) cs)
AreBounded-after content [] = tt
AreBounded-after content (c ∷ cs) = (
  omega (arith, length-last max_queue_per_client (c.queue ++ notifications content c.subs)),
  AreBounded-after content cs,
)

pub AreBounded-fanout :
    (content : Content) (s : Server) → AreBounded s.clients → AreBounded (fanout content s).clients
AreBounded-fanout content s h =
    subst (λ (t : Server). AreBounded t.clients) (sym (fanout_lem content s h))
      (AreBounded-after content s.clients)

module _ (abi : Abi) (epoch : Text → Option ℤ) (block_hash : ℤ → Text) where
  unfoldable pub happen : Happening → Server → Server
  happen connects s = record s { clients = s.clients ++ new_client ∷ [] }
  happen (disconnects i) s = record s { clients = remove_at i s.clients }
  happen (takes i) s = record s { clients = change_at i take_one s.clients }
  happen (asks i fresh_id req_id r) s = record s {
    clients = change_at i (on_message fresh_id req_id r) s.clients;
  }
  happen (replays g) s = replay_block abi epoch block_hash g s

  unfoldable pub run : List Happening → Server → Server
  unfolding happen
  run [] s = s
  run (x ∷ xs) s = run xs (happen x s)

  AreBounded-replay_rows :
      (rows : List TickDataEvent) (s : Server)
      → AreBounded s.clients
      → AreBounded (replay_rows abi epoch block_hash rows s).clients
  unfolding replay_rows
  AreBounded-replay_rows [] s h = h
  AreBounded-replay_rows (row ∷ rows) s h = elim (Outcome-cases (build_raw_log abi row)) [
    | inl (e, q) ↦ rw (q, replay_rows) (AreBounded-replay_rows rows s h)
    | inr (l, q) ↦
        rw (q, replay_rows)
          (AreBounded-replay_rows rows _ (AreBounded-fanout (log row.pool_address l) s h))
  ]

  AreBounded-replay_block :
      (g : Group) (s : Server)
      → AreBounded s.clients
      → AreBounded (replay_block abi epoch block_hash g s).clients
  unfolding replay_block
  AreBounded-replay_block g s h =
      elim (Option-cases
        (build_block_header abi epoch block_hash g.block_number g.block_timestamp)) [
          | inl bad ↦ rw (bad, replay_block) h
          | inr (hd, q) ↦
              rw (q, replay_block)
                (AreBounded-replay_rows g.rows _
                  (AreBounded-fanout (header hd) (record s { current_block = g.block_number }) h))
        ]

  AreBounded-happen :
      (x : Happening) (s : Server) → AreBounded s.clients → AreBounded (happen x s).clients
  unfolding happen
  AreBounded-happen connects s h = AreBounded-connect s.clients h
  AreBounded-happen (disconnects i) s h = AreBounded-remove_at i s.clients h
  AreBounded-happen (takes i) s h =
      AreBounded-change_at i take_one s.clients (λ c k. omega (arith, length-drop 1 c.queue)) h
  AreBounded-happen (asks i fresh_id req_id r) s h =
      AreBounded-change_at i (on_message fresh_id req_id r) s.clients
        (Bounded-on_message fresh_id req_id r) h
  AreBounded-happen (replays g) s h = AreBounded-replay_block g s h

  -- However connections, requests, sends and replayed blocks follow one another, no client's queue
  -- ever holds more than 10000 messages.
  pub run-AreBounded :
      (xs : List Happening) (s : Server) → AreBounded s.clients → AreBounded (run xs s).clients
  unfolding run
  run-AreBounded [] s h = h
  run-AreBounded (x ∷ xs) s h = run-AreBounded xs (happen x s) (AreBounded-happen x s h)

  -- How many rows of a block can be rendered.
  unfoldable pub rendered : List TickDataEvent → ℕ
  rendered [] = 0
  rendered (row ∷ rows) = elim (build_raw_log abi row) [
    | err e ↦ rendered rows
    | ok l ↦ 1 + rendered rows
  ]

  sent-replay_rows :
      (rows : List TickDataEvent) (s : Server)
      → let s' = replay_rows abi epoch block_hash rows s in
        (s'.events_sent ≡ s.events_sent + rendered rows) × (s'.current_block ≡ s.current_block)
  unfolding replay_rows rendered
  sent-replay_rows [] s = (omega arith, refl)
  sent-replay_rows (row ∷ rows) s = elim (Outcome-cases (build_raw_log abi row)) [
    | inl (e, q) ↦ rw (q, replay_rows, rendered) (sent-replay_rows rows s)
    | inr (l, q) ↦
        let r = sent-replay_rows rows (sent abi epoch block_hash (log row.pool_address l) s) in
        rw (q, replay_rows, rendered) (unfold fanout in omega (arith, r.0), unfold fanout in r.1)
  ]

  -- A block whose header can be built counts one event for the header and one for each row that can
  -- be rendered, and becomes the current block; rows that cannot are skipped. A block whose
  -- timestamp does not parse changes nothing.
  pub replay_block_lem :
      (g : Group) (s : Server)
      → let s' = replay_block abi epoch block_hash g s in
        ((epoch g.block_timestamp ≡ none) × (s' ≡ s))
        ⊎ ((t : ℤ) × (epoch g.block_timestamp ≡ some t)
            × (s'.events_sent ≡ s.events_sent + 1 + rendered g.rows)
            × (s'.current_block ≡ g.block_number))
  unfolding replay_block
  replay_block_lem g s = elim (Option-cases (epoch g.block_timestamp)) [
    | inl bad ↦ inl (bad, rw (bad, replay_block))
    | inr (t, q) ↦
        elim (Option-cases
          (build_block_header abi epoch block_hash g.block_number g.block_timestamp)) [
            | inl bad ↦ let no_header = rw (q, build_block_header) at bad in cc no_header
            | inr (hd, b) ↦
                let r = sent-replay_rows g.rows (
                  sent abi epoch block_hash (header hd)
                    (record s { current_block = g.block_number })) in
                inr (
                  t,
                  q,
                  rw (b, replay_block) (unfold fanout in r.0),
                  rw (b, replay_block) (unfold fanout in r.1),
                )
          ]
  ]
