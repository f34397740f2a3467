-- ===== src/WebSocket/Writer/Reports/Writing.antt =====
-- A step of the writer keeps the reports.
use openwire.Base.{inr, ℕ, refl, Bool, false, List, [], ◌∷◌, arith}
use openwire.WebSocket.Message.{EngineFrame, Message}
use openwire.WebSocket.Error.{WebSocketEngineError}
use openwire.WebSocket.Writer.State.{
  Session, SessionConfig, Event, CloseInitiator, is_observed, Writer, WriterCommand, Drain, Resume,
  AfterFlush, tell_if, mark_local_close_started, offer_either,
}
use openwire.WebSocket.Writer.Loop.{
  SinkAnswer, start_send, handed, drained, drain_data_lane, receive_data, maybe_send_one_data,
  handle_control_command, receive_command, select, finish_close, discard_data, linger, resume_after,
  sink_failed, data_sent, control_sent, flushed, advance, acknowledges, waits_writing, reported,
}
use openwire.WebSocket.Writer.Run.{close_times_out}
use openwire.WebSocket.Writer.Reports.Defs.{
  Told, Told-if, tell_if-Told, emit_terminal_failure-Told, emit_closed-Told,
}

start_send-Told :
    (config : SessionConfig) (frame : EngineFrame) (w : Session)
    → Told w
    → Told (start_send config frame w)
unfolding start_send tell_if
start_send-Told config (EngineFrame.text x) w t = ground arith
start_send-Told config (EngineFrame.binary x) w t = ground arith
start_send-Told config (EngineFrame.ping x) w t = ground arith
start_send-Told config (EngineFrame.pong x) w t = ground arith
start_send-Told config (EngineFrame.close code reason) w t = ground arith

handed-Told :
    (config : SessionConfig) (frame : EngineFrame) (answer : SinkAnswer) (w : Session)
    → Told w
    → Told (handed config frame answer w)
unfolding handed
handed-Told config frame (SinkAnswer.not_ready error) w t = t
handed-Told config frame (SinkAnswer.not_started error) w t = start_send-Told config frame w t
handed-Told config frame (SinkAnswer.not_flushed error) w t = start_send-Told config frame _ t
handed-Told config frame SinkAnswer.sent w t = start_send-Told config frame _ t

drained-Told : (next : Drain) (w : Session) → Told w → Told (drained next w)
unfolding drained
drained-Told Drain.on_shutdown w t = t
drained-Told Drain.on_lane_closed w t = t
drained-Told Drain.on_cancel w t = t
drained-Told (Drain.on_close code reason) w t = t

drain_data_lane-Told :
    (next : Drain) (lane : List Message) (w : Session) → Told w → Told (drain_data_lane next lane w)
unfolding drain_data_lane
drain_data_lane-Told next [] w t = drained-Told next _ t
drain_data_lane-Told next (m ∷ rest) w t =
    Told-if w.session.remote_close_started _ _ (drain_data_lane-Told next rest w t) t

receive_data-Told : (lane : List Message) (w : Session) → Told w → Told (receive_data lane w)
unfolding receive_data
receive_data-Told [] w t = t
receive_data-Told (m ∷ rest) w t = Told-if w.session.remote_close_started _ _ t t

handle_control_command-Told :
    (config : SessionConfig) (command : WriterCommand) (w : Session)
    → Told w
    → Told (handle_control_command config command w)
unfolding handle_control_command mark_local_close_started
handle_control_command-Told config (WriterCommand.ping payload) w t =
    Told-if w.session.remote_close_started _ _ t t
handle_control_command-Told config (WriterCommand.pong payload) w t =
    Told-if w.session.remote_close_started _ _ t t
handle_control_command-Told config (WriterCommand.close code reason) w t =
    let marked : Session = record w { session = mark_local_close_started w.session } in
    let closing : Event = Event.closing code reason CloseInitiator.local in
    Told-if w.session.remote_close_started _ _ t (
      drain_data_lane-Told (Drain.on_close code reason) w.lane
        (tell_if (is_observed config) closing marked)
        (tell_if-Told (is_observed config) closing marked refl t))
handle_control_command-Told config (WriterCommand.close_ack code reason) w t = t
handle_control_command-Told config WriterCommand.ping_timeout w t =
    Told-if w.session.remote_close_started _ _ t (emit_terminal_failure-Told config _ _ t)
handle_control_command-Told config WriterCommand.cancel w t =
    drain_data_lane-Told Drain.on_cancel w.lane w t

receive_command-Told :
    (config : SessionConfig) (control : List WriterCommand) (w : Session)
    → Told w
    → Told (receive_command config control w)
unfolding receive_command
receive_command-Told config (command ∷ rest) w t = handle_control_command-Told config command _ t
receive_command-Told config [] w t =
    Told-if w.control_connected _ _ (Told-if w.data_open _ _ (receive_data-Told w.lane w t) t)
      (drain_data_lane-Told Drain.on_lane_closed w.lane w t)

select-Told : (config : SessionConfig) (w : Session) → Told w → Told (select config w)
unfolding select
select-Told config w t =
    Told-if w.shutdown _ _ (drain_data_lane-Told Drain.on_shutdown w.lane _ t)
      (receive_command-Told config w.control w t)

finish_close-Told :
    (config : SessionConfig) (code : ℕ) (reason : List ℕ) (w : Session)
    → Told w
    → Told (finish_close config code reason w)
unfolding finish_close
finish_close-Told config code reason w t = emit_closed-Told config code reason _ t

discard_data-Told : (lane : List Message) (w : Session) → Told w → Told (discard_data lane w)
unfolding discard_data
discard_data-Told [] w t = t
discard_data-Told (m ∷ rest) w t = t

linger-Told :
    (config : SessionConfig) (code : ℕ) (reason : List ℕ) (control : List WriterCommand)
    (w : Session)
    → Told w
    → Told (linger config code reason control w)
unfolding linger
linger-Told config code reason (WriterCommand.cancel ∷ rest) w t =
    finish_close-Told config code reason (record w { control = rest }) t
linger-Told config code reason (WriterCommand.ping payload ∷ rest) w t = t
linger-Told config code reason (WriterCommand.pong payload ∷ rest) w t = t
linger-Told config code reason (WriterCommand.close c r ∷ rest) w t = t
linger-Told config code reason (WriterCommand.close_ack c r ∷ rest) w t = t
linger-Told config code reason (WriterCommand.ping_timeout ∷ rest) w t = t
linger-Told config code reason [] w t =
    Told-if w.control_connected _ _ (Told-if w.data_open _ _ (discard_data-Told w.lane w t) t)
      (finish_close-Told config code reason w t)

sink_failed-Told :
    (config : SessionConfig) (error : WebSocketEngineError) (acknowledge : Bool) (w : Session)
    → Told w
    → Told (sink_failed config error acknowledge w)
unfolding sink_failed
sink_failed-Told config error acknowledge w t = emit_terminal_failure-Told config _ _ t

resume_after-Told : (resume : Resume) (w : Session) → Told w → Told (resume_after resume w)
unfolding resume_after
resume_after-Told Resume.to_loop w t = t
resume_after-Told (Resume.to_drain next) w t = drain_data_lane-Told next w.lane w t

maybe_send_one_data-Told : (w : Session) → Told w → Told (maybe_send_one_data w)
unfolding maybe_send_one_data
maybe_send_one_data-Told w t = Told-if w.data_open _ _ (receive_data-Told w.lane w t) t

-- A send that failed, at any frame and with any answer.
failed_send-Told :
    (config : SessionConfig) (frame : EngineFrame) (answer : SinkAnswer)
    (error : WebSocketEngineError) (acknowledge : Bool) (w : Session)
    → Told w
    → Told (sink_failed config error acknowledge (handed config frame answer w))
failed_send-Told config frame answer error acknowledge w t =
    sink_failed-Told config error acknowledge (handed config frame answer w)
      (handed-Told config frame answer w t)

data_sent-Told :
    (config : SessionConfig) (frame : EngineFrame) (resume : Resume) (answer : SinkAnswer)
    (w : Session)
    → Told w
    → Told (data_sent config frame resume answer w)
unfolding data_sent
data_sent-Told config frame resume (SinkAnswer.not_ready error) w t =
    sink_failed-Told config error (acknowledges resume) w t
data_sent-Told config frame resume (SinkAnswer.not_started error) w t =
    failed_send-Told config frame (SinkAnswer.not_started error) error (acknowledges resume) w t
data_sent-Told config frame resume (SinkAnswer.not_flushed error) w t =
    failed_send-Told config frame (SinkAnswer.not_flushed error) error (acknowledges resume) w t
data_sent-Told config frame resume SinkAnswer.sent w t =
    resume_after-Told resume (handed config frame SinkAnswer.sent w)
      (handed-Told config frame SinkAnswer.sent w t)

control_sent-Told :
    (config : SessionConfig) (frame : EngineFrame) (answer : SinkAnswer) (w : Session)
    → Told w
    → Told (control_sent config frame answer w)
unfolding control_sent
control_sent-Told config frame (SinkAnswer.not_ready error) w t =
    sink_failed-Told config error false w t
control_sent-Told config frame (SinkAnswer.not_started error) w t =
    failed_send-Told config frame (SinkAnswer.not_started error) error false w t
control_sent-Told config frame (SinkAnswer.not_flushed error) w t =
    failed_send-Told config frame (SinkAnswer.not_flushed error) error false w t
control_sent-Told config frame SinkAnswer.sent w t =
    maybe_send_one_data-Told (handed config frame SinkAnswer.sent w)
      (handed-Told config frame SinkAnswer.sent w t)

flushed-Told :
    (config : SessionConfig) (next : AfterFlush) (w : Session)
    → Told w
    → Told (flushed config next w)
unfolding flushed
flushed-Told config AfterFlush.cancelled w t = emit_terminal_failure-Told config _ _ t
flushed-Told config AfterFlush.ends w t = t
flushed-Told config (AfterFlush.lingers code reason) w t = t

pub advance-Told :
    (config : SessionConfig) (answer : SinkAnswer) (at : Writer) (w : Session)
    → Told w
    → Told (advance config answer at w)
unfolding advance
advance-Told config answer Writer.selecting w t = select-Told config w t
advance-Told config answer Writer.stopped w t = t
advance-Told config answer Writer.reporting_ping_timeout w t =
    offer_either Told config _ (waits_writing _) w (λ offered n. t) t
advance-Told config answer (Writer.sending_data frame resume) w t =
    data_sent-Told config frame resume answer w t
advance-Told config answer (Writer.sending_control frame) w t =
    control_sent-Told config frame answer w t
advance-Told config answer (Writer.sending_close frame next) w t =
    handed-Told config frame answer _ t
advance-Told config answer (Writer.flushing next) w t = flushed-Told config next w t
advance-Told config answer (Writer.reporting error acknowledge) w t =
    offer_either Told config (inr error) (reported acknowledge) w (λ offered n. t) t
advance-Told config answer (Writer.lingering code reason) w t =
    linger-Told config code reason w.control w t

pub close_times_out-Told :
    (config : SessionConfig) (at : Writer) (w : Session)
    → Told w
    → Told (close_times_out config at w)
unfolding close_times_out
close_times_out-Told config (Writer.lingering code reason) w t =
    finish_close-Told config code reason w t
close_times_out-Told config _ w t = t
