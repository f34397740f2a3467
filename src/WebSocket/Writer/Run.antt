-- ===== src/WebSocket/Writer/Run.antt =====
-- The tasks of `spawn_session` (crates/openwire/src/websocket/writer.rs) and the holder of the
-- sender, interleaved in any order.
use openwire.Base.{ℕ, Bool, true, false, List, [], ◌∷◌, if◌then◌else◌}
use openwire.WebSocket.Message.{Message}
use openwire.WebSocket.Writer.State.{
  Session, SessionConfig, SessionState, Writer, Reader, Heartbeat,
}
use openwire.WebSocket.Writer.Loop.{SinkAnswer, advance, finish_close}
use openwire.WebSocket.Writer.Tasks.{
  StreamItem, read, beat, send, queue_data, queue_close, close, drop_sender, receive, drop_receiver,
}

abbrev pub session_state : SessionState
session_state = record {
  local_close_started = false;
  remote_close_started = false;
  closed_emitted = false;
  call_terminal_emitted = false;
}

unfoldable pub spawn_session : Bool → Session
spawn_session heartbeat = record {
  session = session_state;
  told = [];
  frames = [];
  offered = [];
  undelivered = 0;
  receiver_open = true;
  acks = 0;
  control = [];
  control_connected = true;
  lane = [];
  data_open = true;
  data_connected = true;
  waiting = [];
  pending_close = [];
  accepted = [];
  shutdown = false;
  sender_closed = false;
  generation = 0;
  writer = Writer.selecting;
  reader = Reader.reading;
  heartbeat = if heartbeat then Heartbeat.waiting else Heartbeat.off;
}

-- `tokio::time::timeout` around the wait behind a local close.
unfoldable pub close_times_out : SessionConfig → Writer → Session → Session
unfolding finish_close
close_times_out config (Writer.lingering code reason) w = finish_close config code reason w
close_times_out config _ w = w

-- The control lane has no sender left once the reader and the heartbeat have ended and the
-- sender is dropped.
abbrev pub holds_no_sender : Reader → Heartbeat → Bool → Bool
holds_no_sender Reader.finished Heartbeat.off data_connected =
    if data_connected then false else true
holds_no_sender _ _ _ = false

unfoldable pub disconnect : Session → Session
disconnect w =
    if holds_no_sender w.reader w.heartbeat w.data_connected
    then record w { control_connected = false }
    else w

-- Whoever moves next. A call of the sender is made only while it is held.
pub data Move : Type 0 where
  writes : SinkAnswer → Move
  times_out queues queues_close drops disconnects receives leaves : Move
  reads : StreamItem → Move
  beats : Bool → Move
  sends : Message → Move
  closes : ℕ → List ℕ → Move

unfoldable pub called : Session → Session → Session
called after w = if w.data_connected then after else w

unfoldable pub step : SessionConfig → Move → Session → Session
unfolding advance close_times_out disconnect read beat called send queue_data queue_close close
    drop_sender receive drop_receiver
step config (writes answer) w = advance config answer w.writer w
step config times_out w = close_times_out config w.writer w
step config queues w = queue_data config w.waiting w
step config queues_close w = queue_close w.pending_close w
step config drops w = called (drop_sender w) w
step config disconnects w = disconnect w
step config receives w = receive w
step config leaves w = drop_receiver w
step config (reads item) w = read config item w.reader w
step config (beats elapsed) w = beat elapsed w.heartbeat w
step config (sends m) w = called (send m w).1 w
step config (closes code reason) w = called (close code reason w).1 w

unfoldable pub run : SessionConfig → List Move → Session → Session
unfolding step
run config [] w = w
run config (move ∷ moves) w = run config moves (step config move w)

-- A session after some moves.
abbrev pub reached : SessionConfig → Bool → List Move → Session
reached config heartbeat moves = run config moves (spawn_session heartbeat)
