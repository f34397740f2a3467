-- ===== src/WebSocket/Writer/Loop.antt =====
-- `run_writer` and what it calls: each function runs from one wait of the writer to the next. The
-- span of the log and the listener's clones are left out.
use openwire.Base.{ℕ, ◌+◌, Bool, true, false, ◌&&◌, List, [], ◌∷◌, if◌then◌else◌, length, inr}
use openwire.Text.{codes}
use openwire.WebSocket.Error.{WebSocketEngineError}
use openwire.WebSocket.Message.{EngineFrame, Message, MessageKind, to_engine_frame}
use openwire.WebSocket.Writer.State.{
  Session, SessionConfig, Writer, WriterCommand, WebSocketError, TimeoutKind, Drain, Resume,
  AfterFlush, Event, CloseInitiator, is_observed, map_engine_error, tell_if, emit_terminal_failure,
  emit_closed, mark_local_close_started, offer,
}

-- How a send into the engine's sink ends: it is not ready for a frame, it refuses this one, it
-- takes the frame and cannot flush it, or all is well.
pub data SinkAnswer : Type 0 where
  not_ready not_started not_flushed : WebSocketEngineError → SinkAnswer
  sent : SinkAnswer

-- What `InstrumentedSink::start_send` tells of a frame.
unfoldable pub sent_event : EngineFrame → Session → Session
unfolding tell_if
sent_event (EngineFrame.text s) w = tell_if true (Event.message_sent MessageKind.text (length s)) w
sent_event (EngineFrame.binary b) w =
    tell_if true (Event.message_sent MessageKind.binary (length b)) w
sent_event (EngineFrame.ping b) w = tell_if true Event.ping_sent w
sent_event (EngineFrame.pong b) w = w
sent_event (EngineFrame.close code reason) w = w

unfoldable pub start_send : SessionConfig → EngineFrame → Session → Session
unfolding sent_event
start_send config frame w = if is_observed config then sent_event frame w else w

-- The session after a send; `frames` has each frame that the engine took.
unfoldable pub handed : SessionConfig → EngineFrame → SinkAnswer → Session → Session
unfolding start_send
handed config frame (not_ready error) w = w
handed config frame (not_started error) w = start_send config frame w
handed config frame (not_flushed error) w =
    start_send config frame (record w { frames = frame ∷ w.frames })
handed config frame sent w = start_send config frame (record w { frames = frame ∷ w.frames })

unfoldable pub drained : Drain → Session → Session
drained Drain.on_shutdown w = record w { writer = Writer.flushing AfterFlush.cancelled }
drained Drain.on_lane_closed w = record w { writer = Writer.stopped }
drained Drain.on_cancel w = record w { writer = Writer.flushing AfterFlush.cancelled }
drained (Drain.on_close code reason) w = record w {
  writer = Writer.sending_close (EngineFrame.close code reason) (AfterFlush.lingers code reason);
}

-- `drain_data_lane`, with the lane as an argument. Once the peer has closed, its messages are
-- dropped.
unfoldable pub drain_data_lane : Drain → List Message → Session → Session
unfolding drained to_engine_frame
drain_data_lane next [] w = drained next (record w { lane = [] })
drain_data_lane next (m ∷ rest) w =
    let others = drain_data_lane next rest w in
    if w.session.remote_close_started then others else record w {
      lane = rest;
      writer = Writer.sending_data (to_engine_frame m) (Resume.to_drain next);
    }

-- `send_data_frame` in the loop, up to its wait.
unfoldable pub send_data_frame : Message → List Message → Session → Session
unfolding to_engine_frame
send_data_frame m rest w =
    if w.session.remote_close_started
    then record w { lane = rest; writer = Writer.selecting }
    else record w { lane = rest; writer = Writer.sending_data (to_engine_frame m) Resume.to_loop }

-- The next message of the data lane. An empty lane that no sender holds is marked as closed.
unfoldable pub receive_data : List Message → Session → Session
unfolding send_data_frame
receive_data [] w = record w {
  data_open = w.data_open && w.data_connected;
  writer = Writer.selecting;
}
receive_data (m ∷ rest) w = send_data_frame m rest w

unfoldable pub maybe_send_one_data : Session → Session
unfolding receive_data
maybe_send_one_data w =
    if w.data_open then receive_data w.lane w else record w { writer = Writer.selecting }

unfoldable pub handle_control_command : SessionConfig → WriterCommand → Session → Session
unfolding drain_data_lane emit_terminal_failure tell_if mark_local_close_started
handle_control_command config (WriterCommand.ping payload) w =
    if w.session.remote_close_started
    then record w { writer = Writer.selecting }
    else record w { writer = Writer.sending_control (EngineFrame.ping payload) }
handle_control_command config (WriterCommand.pong payload) w =
    if w.session.remote_close_started
    then record w { writer = Writer.selecting }
    else record w { writer = Writer.sending_control (EngineFrame.pong payload) }
handle_control_command config (WriterCommand.close code reason) w =
    if w.session.remote_close_started
    then record w { acks = w.acks + 1; writer = Writer.selecting }
    else drain_data_lane (Drain.on_close code reason) w.lane (
        tell_if (is_observed config) (Event.closing code reason CloseInitiator.local)
          (record w { session = mark_local_close_started w.session }))
handle_control_command config (WriterCommand.close_ack code reason) w = record w {
  writer = Writer.sending_close (EngineFrame.close code reason) AfterFlush.ends;
}
handle_control_command config WriterCommand.ping_timeout w =
    if w.session.remote_close_started
    then record w { writer = Writer.selecting }
    else emit_terminal_failure config (WebSocketError.timeout TimeoutKind.ping) (record w {
      session = mark_local_close_started w.session;
      writer = Writer.reporting_ping_timeout;
    })
handle_control_command config WriterCommand.cancel w = drain_data_lane Drain.on_cancel w.lane w

-- The `select!` of `run_writer`: a shutdown, a command, a message, in this order. With nothing to
-- do the writer waits.
unfoldable pub receive_command : SessionConfig → List WriterCommand → Session → Session
unfolding handle_control_command drain_data_lane receive_data
receive_command config (command ∷ rest) w =
    handle_control_command config command (record w { control = rest; shutdown = false })
receive_command config [] w =
    if w.control_connected
    then (if w.data_open then receive_data w.lane w else w)
    else drain_data_lane Drain.on_lane_closed w.lane w

unfoldable pub select : SessionConfig → Session → Session
unfolding receive_command drain_data_lane
select config w =
    if w.shutdown
    then drain_data_lane Drain.on_shutdown w.lane (record w { shutdown = false })
    else receive_command config w.control w

-- The end of the wait behind a local close, by a command or by the timeout.
unfoldable pub finish_close : SessionConfig → ℕ → List ℕ → Session → Session
unfolding emit_closed
finish_close config code reason w =
    emit_closed config code reason (record w { acks = w.acks + 1; writer = Writer.stopped })

-- The lane's next message, thrown away.
unfoldable pub discard_data : List Message → Session → Session
discard_data [] w = record w { data_open = w.data_open && w.data_connected }
discard_data (m ∷ rest) w = record w { lane = rest }

-- The loop of that wait: all but a `Cancel` and the end of the lane is thrown away.
unfoldable pub linger : SessionConfig → ℕ → List ℕ → List WriterCommand → Session → Session
unfolding finish_close discard_data
linger config code reason (WriterCommand.cancel ∷ rest) w =
    finish_close config code reason (record w { control = rest })
linger config code reason (command ∷ rest) w = record w { control = rest }
linger config code reason [] w =
    if w.control_connected
    then (if w.data_open then discard_data w.lane w else w)
    else finish_close config code reason w

-- What follows a frame of the data lane that the sink took.
unfoldable pub resume_after : Resume → Session → Session
unfolding drain_data_lane
resume_after Resume.to_loop w = record w { writer = Writer.selecting }
resume_after (Resume.to_drain next) w = drain_data_lane next w.lane w

-- A close that waits for its acknowledgement gets it when the drain before it fails.
abbrev pub acknowledges : Resume → Bool
acknowledges (Resume.to_drain (Drain.on_close code reason)) = true
acknowledges _ = false

unfoldable pub sink_failed : SessionConfig → WebSocketEngineError → Bool → Session → Session
unfolding emit_terminal_failure map_engine_error
sink_failed config error acknowledge w =
    emit_terminal_failure config (map_engine_error error)
      (record w { writer = Writer.reporting (map_engine_error error) acknowledge })

unfoldable pub data_sent : SessionConfig → EngineFrame → Resume → SinkAnswer → Session → Session
unfolding handed sink_failed resume_after
data_sent config frame resume (not_ready error) w = sink_failed config error (acknowledges resume) w
data_sent config frame resume (not_started error) w =
    sink_failed config error (acknowledges resume) (handed config frame (not_started error) w)
data_sent config frame resume (not_flushed error) w =
    sink_failed config error (acknowledges resume) (handed config frame (not_flushed error) w)
data_sent config frame resume sent w = resume_after resume (handed config frame sent w)

unfoldable pub control_sent : SessionConfig → EngineFrame → SinkAnswer → Session → Session
unfolding handed sink_failed maybe_send_one_data
control_sent config frame (not_ready error) w = sink_failed config error false w
control_sent config frame (not_started error) w =
    sink_failed config error false (handed config frame (not_started error) w)
control_sent config frame (not_flushed error) w =
    sink_failed config error false (handed config frame (not_flushed error) w)
control_sent config frame sent w = maybe_send_one_data (handed config frame sent w)

unfoldable pub flushed : SessionConfig → AfterFlush → Session → Session
unfolding emit_terminal_failure
flushed config AfterFlush.cancelled w =
    emit_terminal_failure config WebSocketError.local_cancelled
      (record w { writer = Writer.stopped })
flushed config AfterFlush.ends w = record w { writer = Writer.stopped }
flushed config (AfterFlush.lingers code reason) w = record w {
  writer = Writer.lingering code reason;
}

-- The writer's next wait behind an offer to the receiver, and its end behind a failure.
abbrev pub waits_writing : Writer → Session → Session
waits_writing at s = record s { writer = at }

abbrev pub reported : Bool → Session → Session
reported acknowledge s = record s {
  acks = if acknowledge then s.acks + 1 else s.acks;
  writer = Writer.stopped;
}

-- One step of the writer: its wait is over, or the receiver's lane has no room and it waits on. The
-- answer is read where it waits for the sink.
unfoldable pub advance : SessionConfig → SinkAnswer → Writer → Session → Session
unfolding select data_sent control_sent handed flushed linger offer
advance config answer Writer.selecting w = select config w
advance config answer Writer.stopped w = w
advance config answer Writer.reporting_ping_timeout w =
    offer config (inr (WebSocketError.timeout TimeoutKind.ping))
      (waits_writing
        (Writer.sending_close (EngineFrame.close 1011 (codes "ping timeout")) AfterFlush.ends))
      w
advance config answer (Writer.sending_data frame resume) w = data_sent config frame resume answer w
advance config answer (Writer.sending_control frame) w = control_sent config frame answer w
advance config answer (Writer.sending_close frame next) w =
    handed config frame answer (record w { writer = Writer.flushing next })
advance config answer (Writer.flushing next) w = flushed config next w
advance config answer (Writer.reporting error acknowledge) w =
    offer config (inr error) (reported acknowledge) w
advance config answer (Writer.lingering code reason) w = linger config code reason w.control w
