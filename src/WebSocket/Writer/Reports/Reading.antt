-- ===== src/WebSocket/Writer/Reports/Reading.antt =====
-- The reader, the heartbeat and the sender keep the reports.
use openwire.Base.{
  inl, inr, ℕ, Bool, true, false, not, List, [], ◌∷◌, ◌++◌, max, ltb, ◌==◌, arith, if◌then◌else◌,
  length, if_either, Result, ok, err,
}
use openwire.WebSocket.Message.{
  EngineFrame, Message, validate_outbound_message, validate_close_frame,
}
use openwire.WebSocket.Error.{EngineResult}
use openwire.WebSocket.Writer.State.{
  Session, SessionConfig, is_observed, Reader, Heartbeat, WriterCommand, WebSocketError, tell_if,
  mark_remote_close_started, control_lane_capacity, offer_either,
}
use openwire.WebSocket.Writer.Tasks.{
  StreamItem, send_command, waits_reading, waits_beating, waits_closing, received_event,
  remote_close, frame_received, stream_failed, item_received, read, beat, send, send_checked,
  queue_data, close, close_checked, queue_close, is_stopped,
}
use openwire.WebSocket.Writer.Reports.Defs.{
  Told, Told-if, emit_terminal_failure-Told, emit_closed-Told,
}

remote_close-Told :
    (config : SessionConfig) (code : ℕ) (reason : List ℕ) (local : Bool) (w : Session)
    → Told w
    → Told (remote_close config code reason local w)
unfolding remote_close mark_remote_close_started
remote_close-Told config code reason true w t = t
remote_close-Told config code reason false w t = emit_closed-Told config code reason _ t

frame_received-Told :
    (config : SessionConfig) (frame : EngineFrame) (w : Session)
    → Told w
    → Told (frame_received config frame w)
unfolding frame_received
frame_received-Told config (EngineFrame.ping payload) w t = t
frame_received-Told config (EngineFrame.pong payload) w t = t
frame_received-Told config (EngineFrame.close code reason) w t =
    remote_close-Told config code reason w.session.local_close_started w t
frame_received-Told config (EngineFrame.text x) w t = t
frame_received-Told config (EngineFrame.binary x) w t = t

received_event-Told : (frame : EngineFrame) (w : Session) → Told w → Told (received_event frame w)
unfolding received_event tell_if
received_event-Told (EngineFrame.text x) w t = ground arith
received_event-Told (EngineFrame.binary x) w t = ground arith
received_event-Told (EngineFrame.ping x) w t = t
received_event-Told (EngineFrame.pong x) w t = ground arith
received_event-Told (EngineFrame.close code reason) w t = ground arith

item_received-Told :
    (config : SessionConfig) (item : StreamItem) (w : Session)
    → Told w
    → Told (item_received config item w)
unfolding item_received stream_failed
item_received-Told config (StreamItem.frame f) w t =
    frame_received-Told config f (if is_observed config then received_event f w else w)
      (Told-if (is_observed config) (received_event f w) w (received_event-Told f w t) t)
item_received-Told config (StreamItem.stream_error error) w t =
    emit_terminal_failure-Told config _ _ t
item_received-Told config StreamItem.stream_ended w t =
    Told-if w.session.local_close_started _ _ t (emit_terminal_failure-Told config _ _ t)

pub send_command-Told :
    (command : WriterCommand) (next : Session → Session) (w : Session)
    → ((s : Session) → Told s → Told (next s))
    → Told w
    → Told (send_command command next w)
unfolding send_command
send_command-Told command next w keep t =
    let queued : Session = record w { control = w.control ++ (command ∷ []) } in
    Told-if (is_stopped w.writer) _ _ (keep w t)
      (Told-if (ltb (length w.control) control_lane_capacity) _ _ (keep queued t) t)

pub read-Told :
    (config : SessionConfig) (item : StreamItem) (at : Reader) (w : Session)
    → Told w
    → Told (read config item at w)
unfolding read
read-Told config item Reader.reading w t = item_received-Told config item w t
read-Told config item Reader.finished w t = t
read-Told config item (Reader.ponging payload) w t =
    send_command-Told (WriterCommand.pong payload)
      (waits_reading (
        if config.deliver_control_frames
        then Reader.offering (Message.ping payload)
        else Reader.reading))
      w (λ s k. k) t
read-Told config item (Reader.offering m) w t =
    offer_either Told config (inl m) (waits_reading Reader.reading) w (λ offered n. t) t
read-Told config item (Reader.offering_last error command) w t =
    offer_either Told config (inr error) (waits_reading (Reader.commanding command)) w
      (λ offered n. t) t
read-Told config item (Reader.commanding command) w t =
    send_command-Told command (waits_reading Reader.finished) w (λ s k. k) t

pub beat-Told : (elapsed : Bool) (at : Heartbeat) (w : Session) → Told w → Told (beat elapsed at w)
unfolding beat
beat-Told elapsed Heartbeat.waiting w t = t
beat-Told elapsed Heartbeat.off w t = t
beat-Told elapsed (Heartbeat.sending_ping g) w t = Told-if (is_stopped w.writer) _ _ t (
    send_command-Told (WriterCommand.ping []) (waits_beating (Heartbeat.awaiting g)) w (λ s k. k) t)
beat-Told elapsed (Heartbeat.awaiting g) w t = Told-if (not (w.generation == g)) _ _ t (
    Told-if elapsed (record w { heartbeat = Heartbeat.sending_timeout })
      (if is_stopped w.writer then record w { heartbeat = Heartbeat.off } else w) t
      (Told-if (is_stopped w.writer) (record w { heartbeat = Heartbeat.off }) w t t))
beat-Told elapsed Heartbeat.sending_timeout w t =
    send_command-Told WriterCommand.ping_timeout (waits_beating Heartbeat.off) w (λ s k. k) t

pub queue_data-Told :
    (config : SessionConfig) (waiting : List Message) (w : Session)
    → Told w
    → Told (queue_data config waiting w)
unfolding queue_data
queue_data-Told config [] w t = t
queue_data-Told config (m ∷ rest) w t =
    Told-if (is_stopped w.writer) _ _ t
      (Told-if (ltb (length w.lane) (max config.queue_size 1)) _ _ t t)

pub queue_close-Told :
    (pending : List WriterCommand) (w : Session) → Told w → Told (queue_close pending w)
unfolding queue_close
queue_close-Told [] w t = t
queue_close-Told (command ∷ rest) w t =
    send_command-Told command (waits_closing rest) w (λ s k. k) t

send_checked-Told :
    (checked : EngineResult (Unit {0})) (m : Message) (w : Session)
    → Told w
    → Told (send_checked checked m w).1
unfolding send_checked
send_checked-Told (ok _) m w t = t
send_checked-Told (err error) m w t = t

pub send-Told : (m : Message) (w : Session) → Told w → Told (send m w).1
unfolding send
send-Told m w t =
    if_either (λ (r : Result WebSocketError (Unit {0}) × Session). Told r.1) w.sender_closed _ _
      (λ _. t) (λ _. send_checked-Told (validate_outbound_message m) m w t)

close_checked-Told :
    (checked : EngineResult (Unit {0})) (command : WriterCommand) (w : Session)
    → Told w
    → Told (close_checked checked command w).1
unfolding close_checked
close_checked-Told (ok _) command w t = t
close_checked-Told (err error) command w t = t

pub close-Told : (code : ℕ) (reason : List ℕ) (w : Session) → Told w → Told (close code reason w).1
unfolding close
close-Told code reason w t =
    if_either (λ (r : Result WebSocketError (Unit {0}) × Session). Told r.1) w.sender_closed _ _
      (λ _. t)
      (λ _.
        close_checked-Told (validate_close_frame code reason) (WriterCommand.close code reason) w t)
