-- ===== src/WebSocket/Writer/Frames.antt =====
-- The frames of a session: the data lane in order, and the close frame at the end.
pub mod Defs
mod Writing
mod Handed
mod Sending
mod Reading
use openwire.Base.{
  ◌≡◌, refl, Bool, true, false, not, ◌&&◌, List, [], ◌∷◌, ◌++◌, All, all, arith, if◌then◌else◌,
  if_either,
}
use openwire.WebSocket.Message.{EngineFrame, Message}
use openwire.WebSocket.Writer.State.{Session, SessionConfig, WriterCommand, Writer}
use openwire.WebSocket.Writer.Tasks.{send, send_command, close, drop_sender, receive, drop_receiver}
use openwire.WebSocket.Writer.Run.{
  Move, step, run, spawn_session, disconnect, called, holds_no_sender, reached,
}
use Defs.{
  IsFramed, Framed, When, When-elim, is_plain, is_close, closes, earlier, data_of, queued, sending,
  delivers,
}
use Sending.{advance-Framed, close_times_out-Framed}
use Reading.{
  send_command-Framed, read-Framed, beat-Framed, queue_data-Framed, queue_close-Framed, send-Framed,
  close-Framed,
}

-- The sender is not given close messages, which it would queue as data.
abbrev pub IsPlainMove : Move → Type 0
IsPlainMove (Move.sends m) = is_plain m ≡ true
IsPlainMove _ = Unit

called-Framed : (after w : Session) → Framed after → Framed w → Framed (called after w)
unfolding called
called-Framed after w g f = if_either Framed w.data_connected after w (λ _. g) (λ _. f)

drop_sender-Framed : (w : Session) → Framed w → Framed (drop_sender w)
unfolding drop_sender
drop_sender-Framed w f =
    let after : Session = send_command WriterCommand.cancel (λ s. s) w in
    let f' : Framed after = send_command-Framed WriterCommand.cancel (λ s. s) w (λ s k. k) f in
    record {
      unclosed = f'.unclosed;
      last = f'.last;
      proper = f'.proper;
      plain_lane = f'.plain_lane;
      plain_waiting = refl;
      kept = f'.kept;
    }

step-Framed :
    (config : SessionConfig) (move : Move) (w : Session)
    → IsPlainMove move
    → Framed w
    → Framed (step config move w)
unfolding step disconnect receive drop_receiver
step-Framed config (Move.writes answer) w p f = advance-Framed config answer w.writer w f refl
step-Framed config Move.times_out w p f = close_times_out-Framed config w.writer w f refl
step-Framed config Move.queues w p f = queue_data-Framed config w.waiting w f refl
step-Framed config Move.queues_close w p f = queue_close-Framed w.pending_close w f
step-Framed config Move.drops w p f = called-Framed (drop_sender w) w (drop_sender-Framed w f) f
step-Framed config Move.disconnects w p f =
    if_either Framed (holds_no_sender w.reader w.heartbeat w.data_connected)
      (record w { control_connected = false }) w (λ _. f) (λ _. f)
step-Framed config Move.receives w p f = f
step-Framed config Move.leaves w p f = f
step-Framed config (Move.reads item) w p f = read-Framed config item w.reader w f
step-Framed config (Move.beats elapsed) w p f = beat-Framed elapsed w.heartbeat w f
step-Framed config (Move.sends m) w p f = called-Framed (send m w).1 w (send-Framed m w p f) f
step-Framed config (Move.closes code reason) w p f =
    called-Framed (close code reason w).1 w (close-Framed code reason w f) f

run-Framed :
    (config : SessionConfig) (moves : List Move) (w : Session)
    → All IsPlainMove moves
    → Framed w
    → Framed (run config moves w)
unfolding run
run-Framed config [] w p f = f
run-Framed config (move ∷ moves) w p f =
    run-Framed config moves (step config move w) p.1 (step-Framed config move w p.0 f)

spawn_session-Framed : (heartbeat : Bool) → Framed (spawn_session heartbeat)
unfolding spawn_session data_of queued
spawn_session-Framed heartbeat = ground arith

-- If the sender is not given close messages: whatever the tasks, the engine and the peer do, only
-- the last frame that the engine takes may be a close.
pub run-last_close :
    (config : SessionConfig) (heartbeat : Bool) (moves : List Move)
    → All IsPlainMove moves
    → closes (earlier (reached config heartbeat moves).frames) ≡ 0
run-last_close config heartbeat moves p =
    (run-Framed config moves (spawn_session heartbeat) p (spawn_session-Framed heartbeat)).last

-- If the sender is not given close messages, and as long as the peer has not closed and the writer
-- neither has failed, nor has stopped, nor waits for the peer behind its close: the text and binary
-- messages that were put on the data lane are those still on it, the one about to be sent and those
-- that the engine took, in this order, none lost, none twice.
pub run-delivers :
    (config : SessionConfig) (heartbeat : Bool) (moves : List Move)
    → All IsPlainMove moves
    → (reached config heartbeat moves).session.remote_close_started ≡ false
    → delivers (reached config heartbeat moves).writer ≡ true
    → data_of (reached config heartbeat moves).accepted
      ≡ data_of (queued (reached config heartbeat moves).lane)
        ++ (data_of (sending (reached config heartbeat moves).writer)
            ++ data_of (reached config heartbeat moves).frames)
run-delivers config heartbeat moves p no_close d =
    When-elim _ (rw (d, no_close))
      (run-Framed config moves (spawn_session heartbeat) p (spawn_session-Framed heartbeat)).kept
