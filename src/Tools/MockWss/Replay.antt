-- ===== src/Tools/MockWss/Replay.antt =====
-- `_replay_loop` of tools/mock_wss/server.py: its sleeps, and what other tasks do in them. A task that
-- never awaits is never interrupted, so others run in the sleeps alone; there a stop cancels the loop.
pub mod Served
pub mod Unpaced
mod Tests
use ai_quantum.Common.{ℕ, ◌+◌, Bool, true, false, if◌then◌else◌, List, [], ◌∷◌, Option, none, some}
use ai_quantum.Common.Int.{ℤ}
use ai_quantum.Common.Text.{Text}
use ai_quantum.Common.Float.{Float}
use ai_quantum.Ingestion.Event.{TickDataEvent}
use ai_quantum.Ingestion.Decoders.{Abi}
use ai_quantum.Tools.MockWss.Speed.{sleep_seconds}
use ai_quantum.Tools.MockWss.Blocks.{Group, iter_block_groups}
use ai_quantum.Tools.MockWss.Server.{Server, replay_block}
use ai_quantum.Tools.MockWss.Server.Invariant.{Happening, run}

-- A sleep: what happened in it, and whether it ran out, after a request to stop or not, or was
-- cancelled.
pub data Ending : Type 0 where
  ran_out : (stop_requested : Bool) → Ending
  cancelled : Ending

pub record Pause : Type 0 where
  pub happenings : List Happening
  pub ending : Ending

module _ {F : Type 0} ⦃f : Float F⦄ (epoch : Text → Option ℤ) (of_int : ℤ → F)
    (speed : Option F) where
  -- `delay = 0.0` where a timestamp is bad.
  abbrev pub or_no_delay : Option F → F
  or_no_delay none = f.of_ℕ 0
  or_no_delay (some delay) = delay

  unfoldable pub delay_before : Option Text → Text → F
  unfolding sleep_seconds
  delay_before none block_ts = f.of_ℕ 0
  delay_before (some prev_ts) block_ts =
      or_no_delay (sleep_seconds epoch of_int prev_ts block_ts speed)

module _ {F : Type 0} ⦃f : Float F⦄ (abi : Abi) (epoch : Text → Option ℤ) (block_hash : ℤ → Text)
    (of_int : ℤ → F) (speed : Option F) (pauses : ℕ → Pause) where
  -- How long the loop slept, and the server.
  abbrev pub Replayed : Type 0
  Replayed = List F × Server

  abbrev pub slept : F → Replayed → Replayed
  slept delay (delays, s) = (delay ∷ delays, s)

  -- What follows a sleep: the rest of the loop, unless the task was cancelled in it.
  abbrev pub after_pause : Pause → F → (Bool → Server → Replayed) → Server → Replayed
  after_pause pause delay rest s = elim pause.ending [
    | ran_out stopped ↦ slept delay (rest stopped (run abi epoch block_hash pause.happenings s))
    | cancelled ↦ (delay ∷ [], run abi epoch block_hash pause.happenings s)
  ]

  -- The loop from turn `i` on, with the timestamp before.
  unfoldable pub replay_from : ℕ → Option Text → List Group → Bool → Server → Replayed
  unfolding delay_before replay_block run
  replay_from i prev_ts [] stopped s = ([], s)
  replay_from i prev_ts (g ∷ gs) stopped s =
      let delay = delay_before epoch of_int speed prev_ts g.block_timestamp in
      let rest = λ (stop : Bool) (t : Server).
        replay_from (i + 1) (some g.block_timestamp) gs stop
          (replay_block abi epoch block_hash g t) in
      let paused = after_pause (pauses i) delay rest s in
      let unpaced = rest false s in
      if stopped then ([], s) else if f.lt (f.of_ℕ 0) delay then paused else unpaced

  -- `_replay_loop`, where `subscribed` is what `_await_first_subscription` returned, and `stopped`
  -- whether a stop was requested by then: with both it returns `True`.
  unfoldable pub replay_loop : Bool → Bool → List TickDataEvent → Server → Replayed
  unfolding replay_from iter_block_groups
  replay_loop subscribed stopped events s =
      let replayed = replay_from 0 none (iter_block_groups events) stopped s in
      if subscribed then replayed else ([], s)
