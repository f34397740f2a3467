-- ===== src/WebSocket/Writer/Tasks.antt =====
-- `run_reader` with the instrumented stream, `run_heartbeat`, and the sender of
-- crates/openwire/src/websocket/public.rs. A task whose send into a lane has to wait stays where it is.
use openwire.Base.{
  ◌-◌, ℕ, Bool, true, false, not, ◌||◌, List, [], ◌∷◌, ◌++◌, max, ltb, ◌==◌, if◌then◌else◌, length,
  Result, ok, err, inl, inr,
}
use openwire.WebSocket.Error.{EngineResult, WebSocketEngineError}
use openwire.WebSocket.Message.{
  EngineFrame, Message, MessageKind, to_engine_frame, validate_outbound_message,
  validate_close_frame,
}
use openwire.WebSocket.Writer.State.{
  Session, SessionConfig, Writer, Reader, Heartbeat, WriterCommand, WebSocketError, Event,
  CloseInitiator, is_observed, map_engine_error, mark, tell_if, emit_terminal_failure, emit_closed,
  offer, mark_remote_close_started, control_lane_capacity,
}

abbrev pub is_stopped : Writer → Bool
is_stopped Writer.stopped = true
is_stopped _ = false

abbrev pub is_selecting : Writer → Bool
is_selecting Writer.selecting = true
is_selecting _ = false

-- `control.send(command).await` and the task's next wait. Nothing is sent once the writer has
-- stopped, and a task waits while the lane is full.
unfoldable pub send_command : WriterCommand → (Session → Session) → Session → Session
send_command command next w =
    if is_stopped w.writer
    then next w
    else if ltb (length w.control) control_lane_capacity
    then next (record w { control = w.control ++ (command ∷ []) })
    else w

-- The next wait of a task that has sent a command.
abbrev pub waits_reading : Reader → Session → Session
waits_reading r s = record s { reader = r }

abbrev pub waits_beating : Heartbeat → Session → Session
waits_beating h s = record s { heartbeat = h }

abbrev pub waits_closing : List WriterCommand → Session → Session
waits_closing rest s = record s { pending_close = rest }

-- What the engine's stream gives.
pub data StreamItem : Type 0 where
  frame : EngineFrame → StreamItem
  stream_error : WebSocketEngineError → StreamItem
  stream_ended : StreamItem

-- What `InstrumentedStream::poll_next` tells of a frame.
unfoldable pub received_event : EngineFrame → Session → Session
unfolding tell_if
received_event (EngineFrame.text s) w =
    tell_if true (Event.message_received MessageKind.text (length s)) w
received_event (EngineFrame.binary b) w =
    tell_if true (Event.message_received MessageKind.binary (length b)) w
received_event (EngineFrame.ping b) w = w
received_event (EngineFrame.pong b) w = tell_if true Event.pong_received w
received_event (EngineFrame.close code reason) w =
    tell_if true (Event.closing code reason CloseInitiator.remote) w

unfoldable pub remote_close : SessionConfig → ℕ → List ℕ → Bool → Session → Session
unfolding emit_closed mark_remote_close_started
remote_close config code reason local_close w =
    let marked = record w {
      session = mark_remote_close_started w.session;
      reader =
          Reader.offering_last (WebSocketError.closed_by_peer code reason)
            (if local_close then WriterCommand.cancel else WriterCommand.close_ack code reason);
    } in
    if local_close then marked else emit_closed config code reason marked

unfoldable pub frame_received : SessionConfig → EngineFrame → Session → Session
unfolding remote_close mark
frame_received config (EngineFrame.ping payload) w = record w { reader = Reader.ponging payload }
frame_received config (EngineFrame.pong payload) w = record (mark w) {
  reader =
      if config.deliver_control_frames
      then Reader.offering (Message.pong payload)
      else Reader.reading;
}
frame_received config (EngineFrame.close code reason) w =
    remote_close config code reason w.session.local_close_started w
frame_received config (EngineFrame.text s) w = record w {
  reader = Reader.offering (Message.text s);
}
frame_received config (EngineFrame.binary b) w = record w {
  reader = Reader.offering (Message.binary b);
}

unfoldable pub stream_failed : SessionConfig → WebSocketError → Session → Session
unfolding emit_terminal_failure
stream_failed config error w =
    emit_terminal_failure config error
      (record w { reader = Reader.offering_last error WriterCommand.cancel })

unfoldable pub item_received : SessionConfig → StreamItem → Session → Session
unfolding received_event frame_received stream_failed map_engine_error
item_received config (frame f) w =
    frame_received config f (if is_observed config then received_event f w else w)
item_received config (stream_error error) w = stream_failed config (map_engine_error error) w
item_received config stream_ended w =
    if w.session.local_close_started
    then record w { reader = Reader.commanding WriterCommand.cancel }
    else stream_failed config
        (WebSocketError.engine
          (WebSocketEngineError.invalid_frame "websocket stream ended before close frame"))
        w

-- One step of the reader. The item is read where it waits for the stream.
unfoldable pub read : SessionConfig → StreamItem → Reader → Session → Session
unfolding item_received send_command offer
read config item Reader.reading w = item_received config item w
read config item Reader.finished w = w
read config item (Reader.ponging payload) w =
    send_command (WriterCommand.pong payload)
      (waits_reading (
        if config.deliver_control_frames
        then Reader.offering (Message.ping payload)
        else Reader.reading))
      w
read config item (Reader.offering m) w = offer config (inl m) (waits_reading Reader.reading) w
read config item (Reader.offering_last error command) w =
    offer config (inr error) (waits_reading (Reader.commanding command)) w
read config item (Reader.commanding command) w =
    send_command command (waits_reading Reader.finished) w

-- One step of the heartbeat, with the end of the wait for a pong as a flag. It ends with the
-- writer.
unfoldable pub beat : Bool → Heartbeat → Session → Session
unfolding send_command
beat elapsed Heartbeat.waiting w = record w { heartbeat = Heartbeat.sending_ping w.generation }
beat elapsed Heartbeat.off w = w
beat elapsed (Heartbeat.sending_ping generation) w =
    if is_stopped w.writer
    then record w { heartbeat = Heartbeat.off }
    else send_command (WriterCommand.ping []) (waits_beating (Heartbeat.awaiting generation)) w
beat elapsed (Heartbeat.awaiting generation) w =
    if not (w.generation == generation)
    then record w { heartbeat = Heartbeat.waiting }
    else if elapsed
    then record w { heartbeat = Heartbeat.sending_timeout }
    else if is_stopped w.writer
    then record w { heartbeat = Heartbeat.off }
    else w
beat elapsed Heartbeat.sending_timeout w =
    send_command WriterCommand.ping_timeout (waits_beating Heartbeat.off) w

-- `WebSocketSender::send` behind its check, and up to the wait for room in the data lane.
unfoldable pub send_checked :
    EngineResult (Unit {0}) → Message → Session → Result WebSocketError (Unit {0}) × Session
send_checked (err error) m w = (err (WebSocketError.engine error), w)
send_checked (ok _) m w = (ok tt, record w { waiting = w.waiting ++ (m ∷ []) })

unfoldable pub send : Message → Session → Result WebSocketError (Unit {0}) × Session
unfolding validate_outbound_message send_checked
send m w =
    if w.sender_closed
    then (err WebSocketError.local_cancelled, w)
    else send_checked (validate_outbound_message m) m w

-- The calls that wait get room in turn; once the writer has stopped, they fail.
unfoldable pub queue_data : SessionConfig → List Message → Session → Session
unfolding to_engine_frame
queue_data config [] w = w
queue_data config (m ∷ rest) w =
    if is_stopped w.writer
    then record w { waiting = rest }
    else if ltb (length w.lane) (max config.queue_size 1)
    then record w {
      waiting = rest;
      lane = w.lane ++ (m ∷ []);
      accepted = to_engine_frame m ∷ w.accepted;
    }
    else w

-- `WebSocketSender::close` behind its check, and up to the wait for room in the control lane.
unfoldable pub close_checked :
    EngineResult (Unit {0}) → WriterCommand → Session → Result WebSocketError (Unit {0}) × Session
close_checked (err error) command w = (err (WebSocketError.engine error), w)
close_checked (ok _) command w =
    (ok tt, record w { sender_closed = true; pending_close = command ∷ [] })

unfoldable pub close : ℕ → List ℕ → Session → Result WebSocketError (Unit {0}) × Session
unfolding validate_close_frame close_checked
close code reason w =
    if w.sender_closed
    then (ok tt, w)
    else close_checked (validate_close_frame code reason) (WriterCommand.close code reason) w

unfoldable pub queue_close : List WriterCommand → Session → Session
unfolding send_command
queue_close [] w = w
queue_close (command ∷ rest) w = send_command command (waits_closing rest) w

-- `Drop for SenderInner`: a `Cancel` if the lane has room, and a notification, which wakes only a
-- writer that waits at its `select!`. No call waits then, and no sender of the data lane is left.
unfoldable pub drop_sender : Session → Session
unfolding send_command
drop_sender w =
    let after : Session = send_command WriterCommand.cancel (λ s. s) w in
    record after {
      shutdown = w.shutdown || is_selecting w.writer;
      data_connected = false;
      waiting = [];
      pending_close = [];
      sender_closed = true;
    }

unfoldable pub queue_size : SessionConfig → Session → ℕ
queue_size config w = length w.lane

unfoldable pub is_closed : Session → Bool
is_closed w = w.sender_closed || is_stopped w.writer

-- The receiver takes what is next on its lane (`WebSocketReceiver::poll_next`), and is dropped.
unfoldable pub receive : Session → Session
receive w = record w { undelivered = w.undelivered - 1 }

unfoldable pub drop_receiver : Session → Session
drop_receiver w = record w { undelivered = 0; receiver_open = false }
