-- ===== src/WebSocket/Writer/Frames/Reading.antt =====
-- The reader, the heartbeat and the sender keep the order of the frames.
use openwire.Base.{
  inl, inr, ℕ, ◌≡◌, Bool, true, false, not, ◌&&◌, List, [], ◌∷◌, ◌++◌, max, ltb, ◌==◌, arith,
  if◌then◌else◌, length, if_either, Result, ok, err,
}
use openwire.WebSocket.Message.{
  EngineFrame, Message, to_engine_frame, validate_outbound_message, validate_close_frame,
}
use openwire.WebSocket.Error.{EngineResult}
use openwire.WebSocket.Writer.State.{
  Session, SessionConfig, is_observed, Writer, Reader, Heartbeat, WriterCommand, WebSocketError,
  tell_if, mark_remote_close_started, control_lane_capacity, offer_either,
}
use openwire.WebSocket.Writer.Tasks.{
  StreamItem, send_command, waits_reading, waits_beating, waits_closing, received_event,
  remote_close, frame_received, stream_failed, item_received, read, beat, send, send_checked,
  queue_data, close, close_checked, queue_close, is_stopped,
}
use openwire.WebSocket.Writer.Frames.Defs.{
  IsFramed, Framed, is_plain, data_of, delivers, queued-append, all-append_one, When-map, When-none,
}
use openwire.WebSocket.Writer.Frames.Writing.{emit_terminal_failure-Framed}
use openwire.WebSocket.Writer.Frames.Sending.{emit_closed-Framed}

Framed-if : (b : Bool) (v w : Session) → Framed v → Framed w → Framed (if b then v else w)
Framed-if b v w f g = if_either Framed b v w (λ _. f) (λ _. g)

-- The peer's close takes the promise about the lane away.
remote-Framed :
    (w : Session) → Framed w → IsFramed w.writer w.frames w.lane w.waiting w.accepted true
remote-Framed w f = record {
  unclosed = f.unclosed;
  last = f.last;
  proper = f.proper;
  plain_lane = f.plain_lane;
  plain_waiting = f.plain_waiting;
  kept = When-none _ (delivers w.writer);
}

remote_close-Framed :
    (config : SessionConfig) (code : ℕ) (reason : List ℕ) (local : Bool) (w : Session)
    → Framed w
    → Framed (remote_close config code reason local w)
unfolding remote_close mark_remote_close_started
remote_close-Framed config code reason true w f = remote-Framed w f
remote_close-Framed config code reason false w f =
    emit_closed-Framed config code reason _ (remote-Framed w f)

frame_received-Framed :
    (config : SessionConfig) (frame : EngineFrame) (w : Session)
    → Framed w
    → Framed (frame_received config frame w)
unfolding frame_received
frame_received-Framed config (EngineFrame.ping payload) w f = f
frame_received-Framed config (EngineFrame.pong payload) w f = f
frame_received-Framed config (EngineFrame.close code reason) w f =
    remote_close-Framed config code reason w.session.local_close_started w f
frame_received-Framed config (EngineFrame.text x) w f = f
frame_received-Framed config (EngineFrame.binary x) w f = f

received_event-Framed :
    (frame : EngineFrame) (w : Session) → Framed w → Framed (received_event frame w)
unfolding received_event tell_if
received_event-Framed (EngineFrame.text x) w f = f
received_event-Framed (EngineFrame.binary x) w f = f
received_event-Framed (EngineFrame.ping x) w f = f
received_event-Framed (EngineFrame.pong x) w f = f
received_event-Framed (EngineFrame.close code reason) w f = f

item_received-Framed :
    (config : SessionConfig) (item : StreamItem) (w : Session)
    → Framed w
    → Framed (item_received config item w)
unfolding item_received stream_failed
item_received-Framed config (StreamItem.frame x) w f =
    frame_received-Framed config x (if is_observed config then received_event x w else w)
      (Framed-if (is_observed config) (received_event x w) w (received_event-Framed x w f) f)
item_received-Framed config (StreamItem.stream_error error) w f =
    emit_terminal_failure-Framed config _ (record w { reader = _ }) f
item_received-Framed config StreamItem.stream_ended w f =
    Framed-if w.session.local_close_started _ _ f
      (emit_terminal_failure-Framed config _ (record w { reader = _ }) f)

pub send_command-Framed :
    (command : WriterCommand) (next : Session → Session) (w : Session)
    → ((s : Session) → Framed s → Framed (next s))
    → Framed w
    → Framed (send_command command next w)
unfolding send_command
send_command-Framed command next w keep f =
    let queue : Session = record w { control = w.control ++ (command ∷ []) } in
    Framed-if (is_stopped w.writer) _ _ (keep w f)
      (Framed-if (ltb (length w.control) control_lane_capacity) _ _ (keep queue f) f)

pub read-Framed :
    (config : SessionConfig) (item : StreamItem) (at : Reader) (w : Session)
    → Framed w
    → Framed (read config item at w)
unfolding read
read-Framed config item Reader.reading w f = item_received-Framed config item w f
read-Framed config item Reader.finished w f = f
read-Framed config item (Reader.ponging payload) w f =
    send_command-Framed (WriterCommand.pong payload)
      (waits_reading (
        if config.deliver_control_frames
        then Reader.offering (Message.ping payload)
        else Reader.reading))
      w (λ s k. k) f
read-Framed config item (Reader.offering m) w f =
    offer_either Framed config (inl m) (waits_reading Reader.reading) w (λ offered n. f) f
read-Framed config item (Reader.offering_last error command) w f =
    offer_either Framed config (inr error) (waits_reading (Reader.commanding command)) w
      (λ offered n. f) f
read-Framed config item (Reader.commanding command) w f =
    send_command-Framed command (waits_reading Reader.finished) w (λ s k. k) f

pub beat-Framed :
    (elapsed : Bool) (at : Heartbeat) (w : Session) → Framed w → Framed (beat elapsed at w)
unfolding beat
beat-Framed elapsed Heartbeat.waiting w f = f
beat-Framed elapsed Heartbeat.off w f = f
beat-Framed elapsed (Heartbeat.sending_ping g) w f =
    Framed-if (is_stopped w.writer) (record w { heartbeat = Heartbeat.off }) _ f
      (send_command-Framed (WriterCommand.ping []) (waits_beating (Heartbeat.awaiting g)) w
        (λ s k. k) f)
beat-Framed elapsed (Heartbeat.awaiting g) w f =
    let ended : Session = record w { heartbeat = Heartbeat.off } in
    Framed-if (not (w.generation == g)) _ _ f (
      Framed-if elapsed (record w { heartbeat = Heartbeat.sending_timeout })
        (if is_stopped w.writer then ended else w) f (Framed-if (is_stopped w.writer) ended w f f))
beat-Framed elapsed Heartbeat.sending_timeout w f =
    send_command-Framed WriterCommand.ping_timeout (waits_beating Heartbeat.off) w (λ s k. k) f

-- A message enters the lane.
queue-IsFramed :
    (at : Writer) {frames accepted : List EngineFrame} {lane : List Message} (m : Message)
    (rest : List Message) (remote : Bool)
    → IsFramed at frames lane (m ∷ rest) accepted remote
    → IsFramed at frames (lane ++ (m ∷ [])) rest (to_engine_frame m ∷ accepted) remote
unfolding data_of
queue-IsFramed at {lane} m rest remote f = record {
  unclosed = f.unclosed;
  last = f.last;
  proper = f.proper;
  plain_lane = all-append_one lane m f.plain_lane (ground arith);
  plain_waiting = ground arith;
  kept =
      When-map (delivers at && not remote) (λ e. rw (queued-append lane m) (ground (arith, e)))
        f.kept;
}

pub queue_data-Framed :
    (config : SessionConfig) (waiting : List Message) (w : Session)
    → IsFramed w.writer w.frames w.lane waiting w.accepted w.session.remote_close_started
    → w.waiting ≡ waiting
    → Framed (queue_data config waiting w)
unfolding queue_data
queue_data-Framed config [] w f e = rw e f
queue_data-Framed config (m ∷ rest) w f e =
    Framed-if (is_stopped w.writer) (record w { waiting = rest }) _ (ground arith)
      (Framed-if (ltb (length w.lane) (max config.queue_size 1))
        (record w {
          waiting = rest;
          lane = w.lane ++ (m ∷ []);
          accepted = to_engine_frame m ∷ w.accepted;
        })
        w (queue-IsFramed w.writer m rest _ f) (rw e f))

pub queue_close-Framed :
    (pending : List WriterCommand) (w : Session) → Framed w → Framed (queue_close pending w)
unfolding queue_close
queue_close-Framed [] w f = f
queue_close-Framed (command ∷ rest) w f =
    send_command-Framed command (waits_closing rest) w (λ s k. k) f

send_checked-Framed :
    (checked : EngineResult (Unit {0})) (m : Message) (w : Session)
    → is_plain m ≡ true
    → Framed w
    → Framed (send_checked checked m w).1
unfolding send_checked
send_checked-Framed (ok _) m w p f = record {
  unclosed = f.unclosed;
  last = f.last;
  proper = f.proper;
  plain_lane = f.plain_lane;
  plain_waiting = all-append_one w.waiting m f.plain_waiting p;
  kept = f.kept;
}
send_checked-Framed (err error) m w p f = f

pub send-Framed : (m : Message) (w : Session) → is_plain m ≡ true → Framed w → Framed (send m w).1
unfolding send
send-Framed m w p f =
    if_either (λ (r : Result WebSocketError (Unit {0}) × Session). Framed r.1) w.sender_closed _ _
      (λ _. f) (λ _. send_checked-Framed (validate_outbound_message m) m w p f)

close_checked-Framed :
    (checked : EngineResult (Unit {0})) (command : WriterCommand) (w : Session)
    → Framed w
    → Framed (close_checked checked command w).1
unfolding close_checked
close_checked-Framed (ok _) command w f = f
close_checked-Framed (err error) command w f = f

pub close-Framed :
    (code : ℕ) (reason : List ℕ) (w : Session) → Framed w → Framed (close code reason w).1
unfolding close
close-Framed code reason w f =
    if_either (λ (r : Result WebSocketError (Unit {0}) × Session). Framed r.1) w.sender_closed _ _
      (λ _. f)
      (λ _.
        close_checked-Framed (validate_close_frame code reason) (WriterCommand.close code reason) w
          f)
