-- ===== src/Tools/MockWss/Replay/Unpaced.antt =====
-- The replay at the speed `asap`, which never sleeps.
use ai_quantum.Common.{
  ℕ, ◌+◌, ◌≡◌, refl, ap, ◌∙◌, inl, inr, true, false, List, [], ◌∷◌, ◌++◌, map, length, Option, none,
  some, Option-cases, Outcome-cases, ok, err, arith,
}
use ai_quantum.Common.Int.{ℤ}
use ai_quantum.Common.Text.{Text}
use ai_quantum.Common.Float.{Float}
use ai_quantum.Ingestion.Event.{TickDataEvent}
use ai_quantum.Ingestion.Decoders.{Abi}
use ai_quantum.Tools.MockWss.RawLog.{build_raw_log}
use ai_quantum.Tools.MockWss.Speed.{sleep_seconds}
use ai_quantum.Tools.MockWss.Blocks.{Group, iter_block_groups}
use ai_quantum.Tools.MockWss.Server.{
  Content, header, log, Server, sent, build_block_header, replay_rows, replay_block,
}
use ai_quantum.Tools.MockWss.Server.Fanout.{AreBounded, fanout_lem}
use ai_quantum.Tools.MockWss.Server.Invariant.{AreBounded-fanout}
use ai_quantum.Tools.MockWss.Replay.{Pause, delay_before, replay_from, replay_loop}
use ai_quantum.Tools.MockWss.Replay.Served.{served, Sends, map-served-one, Sends-none, Sends-append}

module _ (abi : Abi) (epoch : Text → Option ℤ) (block_hash : ℤ → Text) where
  -- What a block's rows and a block send: rows and blocks that cannot be rendered send nothing.
  unfoldable pub contents_of_rows : List TickDataEvent → List Content
  contents_of_rows [] = []
  contents_of_rows (row ∷ rows) = elim (build_raw_log abi row) [
    | err e ↦ contents_of_rows rows
    | ok l ↦ log row.pool_address l ∷ contents_of_rows rows
  ]

  unfoldable pub contents_of : Group → List Content
  unfolding contents_of_rows
  contents_of g = elim (build_block_header abi epoch block_hash g.block_number g.block_timestamp) [
    | none ↦ []
    | some h ↦ header h ∷ contents_of_rows g.rows
  ]

  unfoldable pub contents_of_all : List Group → List Content
  unfolding contents_of
  contents_of_all [] = []
  contents_of_all (g ∷ gs) = contents_of g ++ contents_of_all gs

  sent-Sends :
      (x : Content) (s : Server)
      → AreBounded s.clients
      → Sends (x ∷ []) s (sent abi epoch block_hash x s)
  sent-Sends x s h = record {
    clients = ap (λ (t : Server). t.clients) (fanout_lem x s h) ∙ map-served-one x s.clients;
    events = ap (λ (t : Server). t.events_sent + 1) (fanout_lem x s h) ∙ omega arith;
    bounded = AreBounded-fanout x s h;
  }

  replay_rows-Sends :
      (rows : List TickDataEvent) (s : Server)
      → AreBounded s.clients
      → Sends (contents_of_rows rows) s (replay_rows abi epoch block_hash rows s)
  unfolding replay_rows contents_of_rows
  replay_rows-Sends [] s h = Sends-none s h
  replay_rows-Sends (row ∷ rows) s h = elim (Outcome-cases (build_raw_log abi row)) [
    | inl (e, q) ↦ rw (q, replay_rows, contents_of_rows) (replay_rows-Sends rows s h)
    | inr (l, q) ↦
        let first = sent-Sends (log row.pool_address l) s h in
        rw (q, replay_rows, contents_of_rows)
          (Sends-append (log row.pool_address l ∷ []) (contents_of_rows rows) s _ _ first
            (replay_rows-Sends rows _ first.bounded))
  ]

  replay_block-Sends :
      (g : Group) (s : Server)
      → AreBounded s.clients
      → Sends (contents_of g) s (replay_block abi epoch block_hash g s)
  unfolding replay_block contents_of
  replay_block-Sends g s h =
      elim (Option-cases
        (build_block_header abi epoch block_hash g.block_number g.block_timestamp)) [
          | inl bad ↦ rw (bad, replay_block, contents_of) (Sends-none s h)
          | inr (hd, q) ↦
              let first = sent-Sends (header hd) (record s { current_block = g.block_number }) h in
              rw (q, replay_block, contents_of)
                (Sends-append (header hd ∷ []) (contents_of_rows g.rows) s _ _
                  (record {
                    clients = first.clients;
                    events = first.events;
                    bounded = first.bounded;
                  })
                  (replay_rows-Sends g.rows _ first.bounded))
        ]

  module _ {F : Type 0} ⦃f : Float F⦄ (of_int : ℤ → F) (pauses : ℕ → Pause)
      (zero_is_zero : f.lt (f.of_ℕ 0) (f.of_ℕ 0) ≡ false) where
    no_delay :
        (prev_ts : Option Text) (ts : Text) → delay_before epoch of_int none prev_ts ts ≡ f.of_ℕ 0
    unfolding delay_before sleep_seconds
    no_delay none ts = refl
    no_delay (some prev_ts) ts = refl

    Unpaced : List Group → Server → (List F × Server) → Type 0
    Unpaced gs s result = (result.0 ≡ []) × Sends (contents_of_all gs) s result.1

    replay_from-Unpaced :
        (i : ℕ) (prev_ts : Option Text) (gs : List Group) (s : Server)
        → AreBounded s.clients
        → Unpaced gs s (replay_from abi epoch block_hash of_int none pauses i prev_ts gs false s)
    unfolding replay_from contents_of_all Unpaced
    replay_from-Unpaced i prev_ts [] s h = (refl, Sends-none s h)
    replay_from-Unpaced i prev_ts (g ∷ gs) s h =
        let first = replay_block-Sends g s h in
        let (idle, rest) =
          replay_from-Unpaced (i + 1) (some g.block_timestamp) gs
            (replay_block abi epoch block_hash g s) first.bounded in
        rw (no_delay prev_ts g.block_timestamp, zero_is_zero)
          (idle, Sends-append (contents_of g) (contents_of_all gs) s _ _ first rest)

    replay_from-stopped :
        (i : ℕ) (prev_ts : Option Text) (gs : List Group) (s : Server)
        → replay_from abi epoch block_hash of_int none pauses i prev_ts gs true s ≡ ([], s)
    unfolding replay_from
    replay_from-stopped i prev_ts [] s = refl
    replay_from-stopped i prev_ts (g ∷ gs) s = refl

    -- At the speed `asap`, whatever the other tasks would do, and where no queue is longer than its
    -- maximum: once a client has subscribed, nothing is sent if a stop was requested by then;
    -- otherwise the loop runs through the whole fixture without a sleep, so no later request to stop
    -- is served and no message is taken meanwhile. Each client is left with the newest messages, at
    -- most 10000, of what it held and of the notifications for everything that was sent, and the
    -- rest counted as dropped, however fast it reads.
    pub replay_loop-asap :
        (events : List TickDataEvent) (s : Server)
        → AreBounded s.clients
        → let result = replay_loop abi epoch block_hash of_int none pauses true false events s in
          let contents = contents_of_all (iter_block_groups events) in
          (result.0 ≡ [])
          × (result.1.clients ≡ map (served contents) s.clients)
          × (result.1.events_sent ≡ s.events_sent + length contents)
          × (replay_loop abi epoch block_hash of_int none pauses true true events s ≡ ([], s))
    unfolding replay_loop Unpaced
    replay_loop-asap events s h =
        let (idle, sends) = replay_from-Unpaced 0 none (iter_block_groups events) s h in
        (idle, sends.clients, sends.events, replay_from-stopped 0 none (iter_block_groups events) s)
