-- ===== src/WebSocket/Writer/Stopping/Steps.antt =====
-- The steps that a writer that will not come back to its loop (crates/openwire/src/websocket/writer.rs)
-- has left before it stops.
use openwire.Base.{
  inr, ℕ, suc, ◌+◌, ◌≤◌, ◌≡◌, refl, Bool, true, false, not, List, [], ◌∷◌, arith, length, if_either,
}
use openwire.WebSocket.Message.{EngineFrame, Message}
use openwire.WebSocket.Error.{WebSocketEngineError}
use openwire.WebSocket.Writer.State.{
  Session, SessionConfig, SessionState, Event, Writer, WriterCommand, WebSocketError, Drain, Resume,
  AfterFlush, is_observed, map_engine_error, tell_if, emit_terminal_failure, emit_closed, has_room,
  offer_through,
}
use openwire.WebSocket.Writer.Loop.{
  SinkAnswer, sent_event, start_send, handed, drained, drain_data_lane, finish_close, discard_data,
  linger, resume_after, sink_failed, data_sent, flushed, advance, acknowledges, waits_writing,
  reported,
}

-- The writer will not come back to its loop.
abbrev pub is_winding : Writer → Bool
is_winding Writer.selecting = false
is_winding (Writer.sending_data frame Resume.to_loop) = false
is_winding (Writer.sending_control frame) = false
is_winding _ = true

-- The steps that it then has left, at most, before it stops or waits for the peer's close.
abbrev pub left : Writer → List Message → ℕ
left (Writer.reporting error acknowledge) lane = 1
left (Writer.flushing next) lane = 1
left (Writer.sending_close frame next) lane = 2
left Writer.reporting_ping_timeout lane = 3
left (Writer.sending_data frame resume) lane = length lane + 3
left _ lane = 0

-- It may yet have a failure to offer to the receiver.
abbrev pub may_offer : Writer → Bool
may_offer (Writer.reporting error acknowledge) = true
may_offer Writer.reporting_ping_timeout = true
may_offer (Writer.sending_data frame resume) = true
may_offer _ = false

pub record Within (config : SessionConfig) (n : ℕ) (w : Session) : Type 0 where
  pub winding : is_winding w.writer ≡ true
  pub few : left w.writer w.lane ≤ n
  pub room : may_offer w.writer ≡ true → has_room config w ≡ true

pub none_offered : {P : Type 0} → false ≡ true → P
none_offered e = absurd (cc e)

-- What an operation that only reports leaves of any property.
start_send_either :
    (P : Session → Type 0) (config : SessionConfig) (frame : EngineFrame) (w : Session)
    → ((told : List Event) → P (record w { told = told }))
    → P (start_send config frame w)
unfolding start_send tell_if
start_send_either P config frame w h =
    if_either P (is_observed config) _ _ (λ _. observed frame) (λ _. h w.told)
  where
    observed : (f : EngineFrame) → P (sent_event f w)
    observed (EngineFrame.text x) = h _
    observed (EngineFrame.binary x) = h _
    observed (EngineFrame.ping x) = h _
    observed (EngineFrame.pong x) = h _
    observed (EngineFrame.close code reason) = h _

pub failure_either :
    (P : Session → Type 0) (config : SessionConfig) (error : WebSocketError) (w : Session)
    → ((s : SessionState) (told : List Event) → P (record w { session = s; told = told }))
    → P (emit_terminal_failure config error w)
unfolding emit_terminal_failure
failure_either P config error w h =
    if_either P config.has_context _ _
      (λ _. if_either P (not w.session.call_terminal_emitted) _ _ (λ _. h _ _) (λ _. h _ _))
      (λ _. h _ _)

pub closed_either :
    (P : Session → Type 0) (config : SessionConfig) (code : ℕ) (reason : List ℕ) (w : Session)
    → ((s : SessionState) (told : List Event) → P (record w { session = s; told = told }))
    → P (emit_closed config code reason w)
unfolding emit_closed
closed_either P config code reason w h =
    if_either P (not w.session.closed_emitted) _ _
      (λ _. if_either P config.has_context _ _ (λ _. h _ _) (λ _. h _ _)) (λ _. h _ _)

drained-Within :
    (config : SessionConfig) (next : Drain) (n : ℕ) (w : Session)
    → 2 ≤ n
    → Within config n (drained next w)
unfolding drained
drained-Within config Drain.on_shutdown n w h = ground arith
drained-Within config Drain.on_lane_closed n w h = ground arith
drained-Within config Drain.on_cancel n w h = ground arith
drained-Within config (Drain.on_close code reason) n w h = ground arith

pub drain_data_lane-Within :
    (config : SessionConfig) (next : Drain) (lane : List Message) (n : ℕ) (w : Session)
    → has_room config w ≡ true
    → length lane + 2 ≤ n
    → Within config n (drain_data_lane next lane w)
unfolding drain_data_lane
drain_data_lane-Within config next [] n w r h =
    drained-Within config next n (record w { lane = [] }) h
drain_data_lane-Within config next (m ∷ rest) n w r h =
    if_either (Within config n) w.session.remote_close_started _ _
      (λ _. drain_data_lane-Within config next rest n w r (omega arith))
      (λ _. record { winding = refl; few = omega arith; room = λ _. r })

sink_failed-Within :
    (config : SessionConfig) (error : WebSocketEngineError) (acknowledge : Bool) (n : ℕ)
    (w : Session)
    → has_room config w ≡ true
    → 1 ≤ n
    → Within config n (sink_failed config error acknowledge w)
unfolding sink_failed
sink_failed-Within config error acknowledge n w r h =
    failure_either (Within config n) config (map_engine_error error)
      (record w { writer = Writer.reporting (map_engine_error error) acknowledge })
      (λ s told. record { winding = refl; few = h; room = λ _. r })

-- Handing a frame over leaves the receiver's lane alone.
handed-room :
    (config : SessionConfig) (frame : EngineFrame) (answer : SinkAnswer) (w : Session)
    → has_room config w ≡ true
    → has_room config (handed config frame answer w) ≡ true
unfolding handed
handed-room config frame (SinkAnswer.not_ready error) w r = r
handed-room config frame (SinkAnswer.not_started error) w r =
    start_send_either (λ v. has_room config v ≡ true) config frame w (λ told. r)
handed-room config frame (SinkAnswer.not_flushed error) w r =
    start_send_either (λ v. has_room config v ≡ true) config frame
      (record w { frames = frame ∷ w.frames }) (λ told. r)
handed-room config frame SinkAnswer.sent w r =
    start_send_either (λ v. has_room config v ≡ true) config frame
      (record w { frames = frame ∷ w.frames }) (λ told. r)

data_sent-Within :
    (config : SessionConfig) (frame : EngineFrame) (next : Drain) (answer : SinkAnswer) (n : ℕ)
    (w : Session)
    → has_room config w ≡ true
    → length w.lane + 3 ≤ suc n
    → Within config n (data_sent config frame (Resume.to_drain next) answer w)
unfolding data_sent handed resume_after
data_sent-Within config frame next (SinkAnswer.not_ready error) n w r h =
    sink_failed-Within config error (acknowledges (Resume.to_drain next)) n w r (omega arith)
data_sent-Within config frame next (SinkAnswer.not_started error) n w r h =
    sink_failed-Within config error (acknowledges (Resume.to_drain next)) n
      (handed config frame (SinkAnswer.not_started error) w)
      (handed-room config frame (SinkAnswer.not_started error) w r) (omega arith)
data_sent-Within config frame next (SinkAnswer.not_flushed error) n w r h =
    sink_failed-Within config error (acknowledges (Resume.to_drain next)) n
      (handed config frame (SinkAnswer.not_flushed error) w)
      (handed-room config frame (SinkAnswer.not_flushed error) w r) (omega arith)
data_sent-Within config frame next SinkAnswer.sent n w r h =
    start_send_either (λ v. Within config n (drain_data_lane next v.lane v)) config frame
      (record w { frames = frame ∷ w.frames })
      (λ told. drain_data_lane-Within config next w.lane n _ r (omega arith))

close_sent-Within :
    (config : SessionConfig) (frame : EngineFrame) (next : AfterFlush) (answer : SinkAnswer) (n : ℕ)
    (w : Session)
    → 1 ≤ n
    → Within config n (handed config frame answer (record w { writer = Writer.flushing next }))
unfolding handed
close_sent-Within config frame next (SinkAnswer.not_ready error) n w h = record {
  winding = refl;
  few = h;
  room = none_offered;
}
close_sent-Within config frame next (SinkAnswer.not_started error) n w h =
    start_send_either (Within config n) config frame _
      (λ told. record { winding = refl; few = h; room = none_offered })
close_sent-Within config frame next (SinkAnswer.not_flushed error) n w h =
    start_send_either (Within config n) config frame _
      (λ told. record { winding = refl; few = h; room = none_offered })
close_sent-Within config frame next SinkAnswer.sent n w h =
    start_send_either (Within config n) config frame _
      (λ told. record { winding = refl; few = h; room = none_offered })

finish_close-Within :
    (config : SessionConfig) (code : ℕ) (reason : List ℕ) (n : ℕ) (w : Session)
    → Within config n (finish_close config code reason w)
unfolding finish_close
finish_close-Within config code reason n w =
    closed_either (Within config n) config code reason
      (record w { acks = w.acks + 1; writer = Writer.stopped })
      (λ s told. record { winding = refl; few = omega arith; room = none_offered })

-- A wait for the peer's close that goes on, or is over.
linger-Within :
    (config : SessionConfig) (code : ℕ) (reason : List ℕ) (control : List WriterCommand) (n : ℕ)
    (w : Session)
    → w.writer ≡ Writer.lingering code reason
    → Within config n (linger config code reason control w)
unfolding linger discard_data
linger-Within config code reason (WriterCommand.cancel ∷ rest) n w e =
    finish_close-Within config code reason n (record w { control = rest })
linger-Within config code reason (WriterCommand.ping payload ∷ rest) n w e = ground arith
linger-Within config code reason (WriterCommand.pong payload ∷ rest) n w e = ground arith
linger-Within config code reason (WriterCommand.close c r ∷ rest) n w e = ground arith
linger-Within config code reason (WriterCommand.close_ack c r ∷ rest) n w e = ground arith
linger-Within config code reason (WriterCommand.ping_timeout ∷ rest) n w e = ground arith
linger-Within config code reason [] n w e =
    if_either (Within config n) w.control_connected _ _
      (λ _.
        if_either (Within config n) w.data_open _ _ (λ _. discard_data-Within w.lane n w e)
          (λ _. ground arith))
      (λ _. finish_close-Within config code reason n w)
  where
    discard_data-Within :
        (lane : List Message) (m : ℕ) (v : Session)
        → v.writer ≡ Writer.lingering code reason
        → Within config m (discard_data lane v)
    discard_data-Within [] m v e' = ground arith
    discard_data-Within (x ∷ lane) m v e' = ground arith

flushed-Within :
    (config : SessionConfig) (next : AfterFlush) (n : ℕ) (w : Session)
    → Within config n (flushed config next w)
unfolding flushed
flushed-Within config AfterFlush.cancelled n w =
    failure_either (Within config n) config WebSocketError.local_cancelled
      (record w { writer = Writer.stopped })
      (λ s told. record { winding = refl; few = omega arith; room = none_offered })
flushed-Within config AfterFlush.ends n w = record {
  winding = refl;
  few = omega arith;
  room = none_offered;
}
flushed-Within config (AfterFlush.lingers code reason) n w = record {
  winding = refl;
  few = omega arith;
  room = none_offered;
}

-- Each step of the writer takes one off what is left.
pub advance-Within :
    (config : SessionConfig) (answer : SinkAnswer) (at : Writer) (n : ℕ) (w : Session)
    → w.writer ≡ at
    → is_winding at ≡ true
    → left at w.lane ≤ suc n
    → (may_offer at ≡ true → has_room config w ≡ true)
    → Within config n (advance config answer at w)
unfolding advance
advance-Within config answer Writer.selecting n w e r h o = cc
advance-Within config answer Writer.stopped n w e r h o = ground arith
advance-Within config answer Writer.reporting_ping_timeout n w e r h o =
    offer_through (Within config n) config _ (waits_writing _) w (o refl)
      (λ offered k. record { winding = refl; few = omega arith; room = none_offered })
advance-Within config answer (Writer.sending_data frame Resume.to_loop) n w e r h o = cc
advance-Within config answer (Writer.sending_data frame (Resume.to_drain next)) n w e r h o =
    data_sent-Within config frame next answer n w (o refl) h
advance-Within config answer (Writer.sending_control frame) n w e r h o = cc
advance-Within config answer (Writer.sending_close frame next) n w e r h o =
    close_sent-Within config frame next answer n w (omega arith)
advance-Within config answer (Writer.flushing next) n w e r h o = flushed-Within config next n w
advance-Within config answer (Writer.reporting error acknowledge) n w e r h o =
    offer_through (Within config n) config (inr error) (reported acknowledge) w (o refl)
      (λ offered k. record { winding = refl; few = omega arith; room = none_offered })
advance-Within config answer (Writer.lingering code reason) n w e r h o =
    linger-Within config code reason w.control n w e
