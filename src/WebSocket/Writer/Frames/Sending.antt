-- ===== src/WebSocket/Writer/Frames/Sending.antt =====
-- What is handed to the sink, and what comes of it.
use openwire.Base.{inr, ℕ, ◌+◌, ◌≡◌, refl, sym, subst, not, List, [], ◌∷◌, arith, if_either}
use openwire.WebSocket.Message.{EngineFrame, Message}
use openwire.WebSocket.Writer.State.{
  Session, SessionConfig, Writer, WriterCommand, WebSocketError, AfterFlush, tell_if, emit_closed,
  offer_either,
}
use openwire.WebSocket.Writer.Loop.{
  SinkAnswer, sent_event, start_send, handed, finish_close, discard_data, linger, flushed, advance,
  waits_writing, reported,
}
use openwire.WebSocket.Writer.Run.{close_times_out}
use openwire.WebSocket.Writer.Frames.Defs.{Framed, FramedAt}
use openwire.WebSocket.Writer.Frames.Writing.{
  start_send-Framed, emit_terminal_failure-Framed, select-Framed,
}
use openwire.WebSocket.Writer.Frames.Handed.{
  close-IsFramed, stopped-Framed, lingering-Framed, data_sent-Framed, control_sent-Framed,
}

flushed-Framed :
    (config : SessionConfig) (next : AfterFlush) (w : Session)
    → FramedAt (Writer.flushing next) w
    → Framed (flushed config next w)
unfolding flushed
flushed-Framed config AfterFlush.cancelled w f =
    emit_terminal_failure-Framed config WebSocketError.local_cancelled
      (record w { writer = Writer.stopped })
      (stopped-Framed w f.last (f.plain_lane, f.plain_waiting))
flushed-Framed config AfterFlush.ends w f = stopped-Framed w f.last (f.plain_lane, f.plain_waiting)
flushed-Framed config (AfterFlush.lingers code reason) w f =
    lingering-Framed code reason w f.last (f.plain_lane, f.plain_waiting)

pub emit_closed-Framed :
    (config : SessionConfig) (code : ℕ) (reason : List ℕ) (w : Session)
    → Framed w
    → Framed (emit_closed config code reason w)
unfolding emit_closed
emit_closed-Framed config code reason w f =
    if_either Framed (not w.session.closed_emitted) _ _
      (λ _. if_either Framed config.has_context _ _ (λ _. f) (λ _. f)) (λ _. f)

finish_close-Framed :
    (config : SessionConfig) (code : ℕ) (reason : List ℕ) (w : Session)
    → FramedAt (Writer.lingering code reason) w
    → Framed (finish_close config code reason w)
unfolding finish_close
finish_close-Framed config code reason w f =
    emit_closed-Framed config code reason (record w { acks = w.acks + 1; writer = Writer.stopped })
      (stopped-Framed w f.last (f.plain_lane, f.plain_waiting))

discard_data-Framed :
    (code : ℕ) (reason : List ℕ) (lane : List Message) (w : Session)
    → FramedAt (Writer.lingering code reason) (record w { lane = lane })
    → w.lane ≡ lane
    → w.writer ≡ Writer.lingering code reason
    → Framed (discard_data lane w)
unfolding discard_data
discard_data-Framed code reason [] w f l e = rw (l, e) f
discard_data-Framed code reason (m ∷ rest) w f l e =
    rw e (lingering-Framed code reason (record w { lane = rest }) f.last (ground arith))

linger-Framed :
    (config : SessionConfig) (code : ℕ) (reason : List ℕ) (control : List WriterCommand)
    (w : Session)
    → FramedAt (Writer.lingering code reason) w
    → w.writer ≡ Writer.lingering code reason
    → Framed (linger config code reason control w)
unfolding linger
linger-Framed config code reason (WriterCommand.cancel ∷ rest) w f e =
    finish_close-Framed config code reason (record w { control = rest }) f
linger-Framed config code reason (WriterCommand.ping payload ∷ rest) w f e = rw e f
linger-Framed config code reason (WriterCommand.pong payload ∷ rest) w f e = rw e f
linger-Framed config code reason (WriterCommand.close c r ∷ rest) w f e = rw e f
linger-Framed config code reason (WriterCommand.close_ack c r ∷ rest) w f e = rw e f
linger-Framed config code reason (WriterCommand.ping_timeout ∷ rest) w f e = rw e f
linger-Framed config code reason [] w f e =
    if_either Framed w.control_connected _ _
      (λ _.
        if_either Framed w.data_open _ _ (λ _. discard_data-Framed code reason w.lane w f refl e)
          (λ _. rw e f))
      (λ _. finish_close-Framed config code reason w f)

sent_event-writer : (frame : EngineFrame) (w : Session) → (sent_event frame w).writer ≡ w.writer
unfolding sent_event tell_if
sent_event-writer (EngineFrame.text x) w = refl
sent_event-writer (EngineFrame.binary x) w = refl
sent_event-writer (EngineFrame.ping x) w = refl
sent_event-writer (EngineFrame.pong x) w = refl
sent_event-writer (EngineFrame.close code reason) w = refl

start_send-writer :
    (config : SessionConfig) (frame : EngineFrame) (w : Session)
    → (start_send config frame w).writer ≡ w.writer
unfolding start_send
start_send-writer config frame w = ground (arith, sent_event-writer frame w)

handed-writer :
    (config : SessionConfig) (frame : EngineFrame) (answer : SinkAnswer) (w : Session)
    → (handed config frame answer w).writer ≡ w.writer
unfolding handed
handed-writer config frame (SinkAnswer.not_ready error) w = refl
handed-writer config frame (SinkAnswer.not_started error) w = start_send-writer config frame w
handed-writer config frame (SinkAnswer.not_flushed error) w = start_send-writer config frame _
handed-writer config frame SinkAnswer.sent w = start_send-writer config frame _

close_sent-Framed :
    (config : SessionConfig) (frame : EngineFrame) (answer : SinkAnswer) (next : AfterFlush)
    (w : Session)
    → FramedAt (Writer.sending_close frame next) w
    → FramedAt
        (Writer.flushing next)
        (handed config frame answer (record w { writer = Writer.flushing next }))
unfolding handed
close_sent-Framed config frame (SinkAnswer.not_ready error) next w f = ground arith
close_sent-Framed config frame (SinkAnswer.not_started error) next w f =
    start_send-Framed config frame (Writer.flushing next)
      (record w { writer = Writer.flushing next }) (ground arith)
close_sent-Framed config frame (SinkAnswer.not_flushed error) next w f =
    start_send-Framed config frame (Writer.flushing next)
      (record w { frames = frame ∷ w.frames; writer = Writer.flushing next })
      (close-IsFramed frame _ next f)
close_sent-Framed config frame SinkAnswer.sent next w f =
    start_send-Framed config frame (Writer.flushing next)
      (record w { frames = frame ∷ w.frames; writer = Writer.flushing next })
      (close-IsFramed frame _ next f)

pub advance-Framed :
    (config : SessionConfig) (answer : SinkAnswer) (at : Writer) (w : Session)
    → FramedAt at w
    → w.writer ≡ at
    → Framed (advance config answer at w)
unfolding advance
advance-Framed config answer Writer.selecting w f e = select-Framed config w f e
advance-Framed config answer Writer.stopped w f e = rw e f
advance-Framed config answer Writer.reporting_ping_timeout w f e =
    offer_either Framed config _ (waits_writing _) w (λ offered n. ground arith) (rw e f)
advance-Framed config answer (Writer.sending_data frame resume) w f e =
    data_sent-Framed config frame resume answer w f
advance-Framed config answer (Writer.sending_control frame) w f e =
    control_sent-Framed config frame answer w f
advance-Framed config answer (Writer.sending_close frame next) w f e =
    subst
      (λ at. FramedAt at (handed config frame answer (record w { writer = Writer.flushing next })))
      (sym (handed-writer config frame answer (record w { writer = Writer.flushing next })))
      (close_sent-Framed config frame answer next w f)
advance-Framed config answer (Writer.flushing next) w f e = flushed-Framed config next w f
advance-Framed config answer (Writer.reporting error acknowledge) w f e =
    offer_either Framed config (inr error) (reported acknowledge) w
      (λ offered n. stopped-Framed w f.last (f.plain_lane, f.plain_waiting)) (rw e f)
advance-Framed config answer (Writer.lingering code reason) w f e =
    linger-Framed config code reason w.control w f e

pub close_times_out-Framed :
    (config : SessionConfig) (at : Writer) (w : Session)
    → FramedAt at w
    → w.writer ≡ at
    → Framed (close_times_out config at w)
unfolding close_times_out
close_times_out-Framed config (Writer.lingering code reason) w f e =
    finish_close-Framed config code reason w f
close_times_out-Framed config _ w f e = rw e f
