-- ===== src/WebSocket/Writer/Stopping.antt =====
-- The writer comes to rest: behind a request to stop its steps are bounded by the data lane.
mod Steps
use openwire.Base.{
  inr, ℕ, suc, ◌+◌, ◌≤◌, ◌≡◌, refl, Bool, true, false, not, List, [], ◌∷◌, ◌++◌, map, arith, length,
  if_either,
}
use openwire.WebSocket.Message.{EngineFrame, Message}
use openwire.WebSocket.Error.{WebSocketEngineError}
use openwire.WebSocket.Writer.State.{
  Session, SessionConfig, SessionState, Event, Writer, WriterCommand, WebSocketError, TimeoutKind,
  Drain, Resume, AfterFlush, is_observed, map_engine_error, tell_if, emit_terminal_failure,
  emit_closed, mark_local_close_started, has_room, offer_through,
}
use openwire.WebSocket.Writer.Loop.{
  SinkAnswer, sent_event, start_send, handed, drained, drain_data_lane, handle_control_command,
  receive_command, finish_close, discard_data, linger, resume_after, sink_failed, data_sent,
  flushed, advance, acknowledges, waits_writing, reported,
}
use openwire.WebSocket.Writer.Run.{Move, step, run, close_times_out}
use Steps.{
  is_winding, left, may_offer, Within, none_offered, failure_either, closed_either,
  drain_data_lane-Within, advance-Within,
}

-- The writer's own steps, one for each answer, and then the close timeout.
abbrev pub undisturbed : List SinkAnswer → List Move
undisturbed answers = map Move.writes answers ++ (Move.times_out ∷ [])

close_times_out-stopped :
    (config : SessionConfig) (at : Writer) (w : Session)
    → w.writer ≡ at
    → is_winding at ≡ true
    → left at w.lane ≤ 0
    → (close_times_out config at w).writer ≡ Writer.stopped
unfolding close_times_out finish_close
close_times_out-stopped config Writer.selecting w e r h = cc
close_times_out-stopped config Writer.stopped w e r h = e
close_times_out-stopped config Writer.reporting_ping_timeout w e r h = absurd (omega arith)
close_times_out-stopped config (Writer.sending_data frame next) w e r h = absurd (omega arith)
close_times_out-stopped config (Writer.sending_control frame) w e r h = cc
close_times_out-stopped config (Writer.sending_close frame next) w e r h = absurd (omega arith)
close_times_out-stopped config (Writer.flushing next) w e r h = absurd (omega arith)
close_times_out-stopped config (Writer.reporting error acknowledge) w e r h = absurd (omega arith)
close_times_out-stopped config (Writer.lingering code reason) w e r h =
    closed_either (λ v. v.writer ≡ Writer.stopped) config code reason _ (λ s told. refl)

undisturbed-stopped :
    (config : SessionConfig) (answers : List SinkAnswer) (w : Session)
    → Within config (length answers) w
    → (run config (undisturbed answers) w).writer ≡ Writer.stopped
unfolding run step
undisturbed-stopped config [] w k = close_times_out-stopped config w.writer w refl k.winding k.few
undisturbed-stopped config (answer ∷ answers) w k =
    undisturbed-stopped config answers (advance config answer w.writer w)
      (advance-Within config answer w.writer (length answers) w refl k.winding k.few k.room)

-- What makes a writer at its loop stop.
abbrev pub stops : Bool → WriterCommand → Bool
stops remote_close (WriterCommand.ping payload) = false
stops remote_close (WriterCommand.pong payload) = false
stops remote_close (WriterCommand.close code reason) = not remote_close
stops remote_close (WriterCommand.close_ack code reason) = true
stops remote_close WriterCommand.ping_timeout = not remote_close
stops remote_close WriterCommand.cancel = true

handle-Within :
    (config : SessionConfig) (command : WriterCommand) (n : ℕ) (w : Session)
    → stops w.session.remote_close_started command ≡ true
    → has_room config w ≡ true
    → length w.lane + 3 ≤ n
    → Within config n (handle_control_command config command w)
unfolding handle_control_command tell_if
handle-Within config (WriterCommand.ping payload) n w r o h = cc
handle-Within config (WriterCommand.pong payload) n w r o h = cc
handle-Within config (WriterCommand.close code reason) n w r o h =
    if_either (Within config n) w.session.remote_close_started _ _ (λ e. cc)
      (λ e. drain_data_lane-Within config (Drain.on_close code reason) w.lane n _ o (omega arith))
handle-Within config (WriterCommand.close_ack code reason) n w r o h = record {
  winding = refl;
  few = omega arith;
  room = none_offered;
}
handle-Within config WriterCommand.ping_timeout n w r o h =
    if_either (Within config n) w.session.remote_close_started _ _ (λ e. cc)
      (λ e.
        failure_either (Within config n) config (WebSocketError.timeout TimeoutKind.ping)
          (record w {
            session = mark_local_close_started w.session;
            writer = Writer.reporting_ping_timeout;
          })
          (λ s told. record { winding = refl; few = omega arith; room = λ _. o }))
handle-Within config WriterCommand.cancel n w r o h =
    drain_data_lane-Within config Drain.on_cancel w.lane n w o (omega arith)

-- Let a writer at its loop, with no shutdown before it, find at the head of the control lane a close or
-- a ping timeout while the peer has not closed, the acknowledgement of a close, or a `Cancel`, and let
-- the receiver's lane have room or the receiver be dropped. If nobody else moves it has stopped after
-- one step for each message of the data lane and four more, or any number above, whatever the sink
-- answers, and the close timeout.
pub stops-stopped :
    (config : SessionConfig) (answer : SinkAnswer) (answers : List SinkAnswer) (w : Session)
    (command : WriterCommand) (rest : List WriterCommand)
    → w.writer ≡ Writer.selecting
    → w.shutdown ≡ false
    → w.control ≡ command ∷ rest
    → stops w.session.remote_close_started command ≡ true
    → has_room config w ≡ true
    → length w.lane + 3 ≤ length answers
    → (run config (undisturbed (answer ∷ answers)) w).writer ≡ Writer.stopped
unfolding run step receive_command
stops-stopped config answer answers w command rest e q c r o h =
    undisturbed-stopped config answers (advance config answer w.writer w) (
      rw (e, q, c)
        (handle-Within config command (length answers)
          (record w { control = rest; shutdown = false; writer = Writer.selecting }) r o h))
