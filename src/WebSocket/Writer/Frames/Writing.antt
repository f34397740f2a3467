-- ===== src/WebSocket/Writer/Frames/Writing.antt =====
-- A step of the writer keeps the order of its frames.
use openwire.Base.{◌≡◌, refl, Bool, false, not, List, [], ◌∷◌, arith, if_either}
use openwire.WebSocket.Message.{EngineFrame, Message}
use openwire.WebSocket.Writer.State.{
  Session, SessionConfig, Writer, WriterCommand, WebSocketError, TimeoutKind, Event, Drain, Resume,
  tell_if, emit_terminal_failure, is_observed, mark_local_close_started,
}
use openwire.WebSocket.Writer.Loop.{
  sent_event, start_send, drained, drain_data_lane, receive_data, maybe_send_one_data,
  handle_control_command, receive_command, select,
}
use openwire.WebSocket.Writer.Frames.Defs.{IsFramed, Framed, FramedAt, take-IsFramed, drop-IsFramed}

tell_if-Framed :
    (b : Bool) (e : Event) (w : Session) (at : Writer) → FramedAt at w → FramedAt at (tell_if b e w)
unfolding tell_if
tell_if-Framed b e w at f = f

sent_event-Framed :
    (frame : EngineFrame) (at : Writer) (w : Session)
    → FramedAt at w
    → FramedAt at (sent_event frame w)
unfolding sent_event
sent_event-Framed (EngineFrame.text x) at w f = f
sent_event-Framed (EngineFrame.binary x) at w f = f
sent_event-Framed (EngineFrame.ping x) at w f = f
sent_event-Framed (EngineFrame.pong x) at w f = f
sent_event-Framed (EngineFrame.close code reason) at w f = f

pub start_send-Framed :
    (config : SessionConfig) (frame : EngineFrame) (at : Writer) (w : Session)
    → FramedAt at w
    → FramedAt at (start_send config frame w)
unfolding start_send
start_send-Framed config frame at w f =
    if_either (FramedAt at) (is_observed config) _ _ (λ _. sent_event-Framed frame at w f) (λ _. f)

pub emit_terminal_failure-Framed :
    (config : SessionConfig) (error : WebSocketError) (w : Session)
    → Framed w
    → Framed (emit_terminal_failure config error w)
unfolding emit_terminal_failure
emit_terminal_failure-Framed config error w f =
    if_either Framed config.has_context _ _
      (λ _. if_either Framed (not w.session.call_terminal_emitted) _ _ (λ _. f) (λ _. f)) (λ _. f)

drained-Framed :
    (next : Drain) (w : Session) → FramedAt Writer.selecting w → Framed (drained next w)
unfolding drained
drained-Framed Drain.on_shutdown w f = ground arith
drained-Framed Drain.on_lane_closed w f = ground arith
drained-Framed Drain.on_cancel w f = ground arith
drained-Framed (Drain.on_close code reason) w f = ground arith

pub drain_lane-Framed :
    (next : Drain) (lane : List Message) (w : Session)
    → IsFramed Writer.selecting w.frames lane w.waiting w.accepted w.session.remote_close_started
    → Framed (drain_data_lane next lane w)
unfolding drain_data_lane
drain_lane-Framed next [] w f = drained-Framed next (record w { lane = [] }) f
drain_lane-Framed next (m ∷ rest) w f =
    if_either Framed w.session.remote_close_started _ _
      (λ e. drain_lane-Framed next rest w (drop-IsFramed m rest _ e f))
      (λ e. take-IsFramed m rest _ (Resume.to_drain next) e f)

receive_data-Framed :
    (lane : List Message) (w : Session)
    → IsFramed Writer.selecting w.frames lane w.waiting w.accepted w.session.remote_close_started
    → w.lane ≡ lane
    → Framed (receive_data lane w)
unfolding receive_data
receive_data-Framed [] w f e = rw e f
receive_data-Framed (m ∷ rest) w f e =
    if_either Framed w.session.remote_close_started _ _ (λ e. drop-IsFramed m rest _ e f)
      (λ e. take-IsFramed m rest _ Resume.to_loop e f)

pub maybe_send_one_data-Framed :
    (w : Session) → FramedAt Writer.selecting w → Framed (maybe_send_one_data w)
unfolding maybe_send_one_data
maybe_send_one_data-Framed w f =
    if_either Framed w.data_open _ _ (λ _. receive_data-Framed w.lane w f refl) (λ _. f)

handle_control_command-Framed :
    (config : SessionConfig) (command : WriterCommand) (w : Session)
    → FramedAt Writer.selecting w
    → Framed (handle_control_command config command w)
unfolding handle_control_command mark_local_close_started
handle_control_command-Framed config (WriterCommand.ping payload) w f =
    if_either Framed w.session.remote_close_started _ _ (λ _. f) (λ _. ground arith)
handle_control_command-Framed config (WriterCommand.pong payload) w f =
    if_either Framed w.session.remote_close_started _ _ (λ _. f) (λ _. ground arith)
handle_control_command-Framed config (WriterCommand.close code reason) w f =
    if_either Framed w.session.remote_close_started _ _ (λ _. f)
      (λ _. drain_lane-Framed (Drain.on_close code reason) w.lane _ f)
handle_control_command-Framed config (WriterCommand.close_ack code reason) w f = ground arith
handle_control_command-Framed config WriterCommand.ping_timeout w f =
    let marked : Session = record w {
      session = mark_local_close_started w.session;
      writer = Writer.reporting_ping_timeout;
    } in
    if_either Framed w.session.remote_close_started _ _ (λ _. f)
      (λ _.
        emit_terminal_failure-Framed config (WebSocketError.timeout TimeoutKind.ping) marked
          (ground arith))
handle_control_command-Framed config WriterCommand.cancel w f =
    drain_lane-Framed Drain.on_cancel w.lane w f

receive_command-Framed :
    (config : SessionConfig) (control : List WriterCommand) (w : Session)
    → FramedAt Writer.selecting w
    → w.writer ≡ Writer.selecting
    → Framed (receive_command config control w)
unfolding receive_command
receive_command-Framed config (command ∷ rest) w f e =
    handle_control_command-Framed config command (record w { control = rest; shutdown = false }) f
receive_command-Framed config [] w f e =
    if_either Framed w.control_connected _ _
      (λ _.
        if_either Framed w.data_open _ _ (λ _. receive_data-Framed w.lane w f refl) (λ _. rw e f))
      (λ _. drain_lane-Framed Drain.on_lane_closed w.lane w f)

pub select-Framed :
    (config : SessionConfig) (w : Session)
    → FramedAt Writer.selecting w
    → w.writer ≡ Writer.selecting
    → Framed (select config w)
unfolding select
select-Framed config w f e =
    if_either Framed w.shutdown _ _
      (λ _. drain_lane-Framed Drain.on_shutdown w.lane (record w { shutdown = false }) f)
      (λ _. receive_command-Framed config w.control w f e)
