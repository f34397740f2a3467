-- ===== src/WebSocket/Writer/Examples.antt =====
-- Runs of a session, and the theorems at concrete sessions.
use openwire.Base.{◌≡◌, refl, true, false, List, [], ◌∷◌, ◌++◌, arith, length}
use openwire.WebSocket.Message.{EngineFrame, Message, close_code_is_valid}
use openwire.WebSocket.Writer.State.{
  WriterCommand, Session, SessionConfig, Writer, Event, CloseInitiator, control_lane_capacity,
}
use openwire.WebSocket.Writer.Loop.{SinkAnswer}
use openwire.WebSocket.Writer.Tasks.{StreamItem, drop_sender}
use openwire.WebSocket.Writer.Run.{Move, run, reached, spawn_session}
use openwire.WebSocket.Writer.Reports.{run-IsReported}
use openwire.WebSocket.Writer.Reports.Defs.{IsReported}
use openwire.WebSocket.Writer.Stopping.{undisturbed, stops-stopped}
use openwire.WebSocket.Error.{WebSocketEngineError}
use openwire.WebSocket.Writer.Frames.{run-last_close, run-delivers}
use openwire.WebSocket.Writer.Frames.Defs.{closes, earlier, data_of, queued, sending}

abbrev config : SessionConfig
config = record {
  queue_size = 2;
  deliver_control_frames = false;
  has_context = true;
  has_listener = true;
}

-- Two messages, the first of which is written; then the peer closes and is answered.
abbrev two_messages : List Move
two_messages =
    Move.sends (Message.text (104 ∷ []))
    ∷ Move.sends (Message.binary (7 ∷ []))
    ∷ Move.queues
    ∷ Move.queues
    ∷ Move.writes SinkAnswer.sent
    ∷ Move.writes SinkAnswer.sent
    ∷ Move.writes SinkAnswer.sent
    ∷ []

abbrev peer_closes : List Move
peer_closes =
    Move.reads (StreamItem.frame (EngineFrame.close 1000 []))
    ∷ Move.reads StreamItem.stream_ended
    ∷ Move.reads StreamItem.stream_ended
    ∷ Move.writes SinkAnswer.sent
    ∷ Move.writes SinkAnswer.sent
    ∷ Move.writes SinkAnswer.sent
    ∷ Move.writes SinkAnswer.sent
    ∷ Move.writes SinkAnswer.sent
    ∷ []

peer_closes_frames :
    (reached config false (two_messages ++ peer_closes)).frames
    ≡ EngineFrame.close 1000 [] ∷ EngineFrame.binary (7 ∷ []) ∷ EngineFrame.text (104 ∷ []) ∷ []
unfolding run spawn_session
peer_closes_frames = refl

peer_closes_told :
    (reached config false peer_closes).told
    ≡ Event.call_end ∷ Event.closed 1000 [] ∷ Event.closing 1000 [] CloseInitiator.remote ∷ []
unfolding run spawn_session
peer_closes_told = refl

-- A close that the user sends as a message is written as data is: more frames follow it.
close_as_message :
    closes (
      earlier
        (reached config false (
          Move.sends (Message.close 1000 [])
          ∷ Move.sends (Message.text (104 ∷ []))
          ∷ Move.queues
          ∷ Move.queues
          ∷ Move.writes SinkAnswer.sent
          ∷ Move.writes SinkAnswer.sent
          ∷ Move.writes SinkAnswer.sent
          ∷ Move.writes SinkAnswer.sent
          ∷ [])).frames)
    ≡ 1
unfolding run spawn_session close_code_is_valid
close_as_message = refl

-- With the control lane full, the last sender's drop while the writer waits for the sink leaves no
-- request to stop.
drop_unheard :
    (w : Session) (frame : EngineFrame)
    → length w.control ≡ control_lane_capacity
    → w.shutdown ≡ false
    → w.writer ≡ Writer.sending_control frame
    → ((drop_sender w).control ≡ w.control) × ((drop_sender w).shutdown ≡ false)
unfolding drop_sender
drop_unheard w frame full quiet e = ground arith

run-IsReported_example :
    IsReported
      (reached config false (two_messages ++ peer_closes)).session.call_terminal_emitted
      (reached config false (two_messages ++ peer_closes)).session.closed_emitted
      (reached config false (two_messages ++ peer_closes)).told
run-IsReported_example = run-IsReported config false (two_messages ++ peer_closes)

run-last_close_example :
    closes (earlier (reached config false (two_messages ++ peer_closes)).frames) ≡ 0
run-last_close_example = run-last_close config false (two_messages ++ peer_closes) (ground arith)

run-delivers_example :
    data_of (reached config false two_messages).accepted
    ≡ data_of (queued (reached config false two_messages).lane)
      ++ (data_of (sending (reached config false two_messages).writer)
          ++ data_of (reached config false two_messages).frames)
unfolding run spawn_session
run-delivers_example = run-delivers config false two_messages (ground arith) refl refl

-- A message on the lane and a close in front of the writer.
abbrev about_to_close : Session
about_to_close = record (spawn_session false) {
  lane = Message.text (104 ∷ []) ∷ [];
  control = WriterCommand.close 1000 [] ∷ [];
}

abbrev broken_sink : List SinkAnswer
broken_sink =
    SinkAnswer.sent
    ∷ SinkAnswer.not_flushed WebSocketEngineError.invalid_utf8
    ∷ SinkAnswer.sent
    ∷ SinkAnswer.sent
    ∷ []

stops-stopped_example :
    (run config (undisturbed (SinkAnswer.sent ∷ broken_sink)) about_to_close).writer
    ≡ Writer.stopped
unfolding spawn_session
stops-stopped_example =
    stops-stopped config SinkAnswer.sent broken_sink about_to_close (WriterCommand.close 1000 []) []
      refl refl refl refl refl (omega arith)
