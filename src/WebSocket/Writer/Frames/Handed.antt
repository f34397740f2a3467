-- ===== src/WebSocket/Writer/Frames/Handed.antt =====
-- What comes of a frame that is handed to the sink, behind which the loop goes on.
use openwire.Base.{ℕ, ◌≡◌, refl, Bool, true, false, all, List, ◌∷◌, arith}
use openwire.WebSocket.Message.{EngineFrame, Message}
use openwire.WebSocket.Error.{WebSocketEngineError}
use openwire.WebSocket.Writer.State.{
  Session, SessionConfig, Writer, WebSocketError, Resume, AfterFlush, map_engine_error,
}
use openwire.WebSocket.Writer.Loop.{
  SinkAnswer, handed, resume_after, sink_failed, data_sent, control_sent, acknowledges,
}
use openwire.WebSocket.Writer.Frames.Defs.{
  IsFramed, Framed, FramedAt, is_plain, closes, earlier, data_of, may_send, When-elim,
}
use openwire.WebSocket.Writer.Frames.Writing.{
  start_send-Framed, emit_terminal_failure-Framed, drain_lane-Framed, maybe_send_one_data-Framed,
}

module _ {frames accepted : List EngineFrame} {lane waiting : List Message} (f : EngineFrame) where
  data-IsFramed :
      (remote : Bool) (resume : Resume)
      → IsFramed (Writer.sending_data f resume) frames lane waiting accepted remote
      → IsFramed Writer.selecting (f ∷ frames) lane waiting accepted remote
  unfolding data_of
  data-IsFramed true resume k = ground arith
  data-IsFramed false resume k = ground arith

  control-IsFramed :
      (remote : Bool)
      → IsFramed (Writer.sending_control f) frames lane waiting accepted remote
      → IsFramed Writer.selecting (f ∷ frames) lane waiting accepted remote
  unfolding data_of
  control-IsFramed true k = ground arith
  control-IsFramed false k = ground arith

  pub close-IsFramed :
      (remote : Bool) (next : AfterFlush)
      → IsFramed (Writer.sending_close f next) frames lane waiting accepted remote
      → IsFramed (Writer.flushing next) (f ∷ frames) lane waiting accepted remote
  unfolding data_of
  close-IsFramed true next k = ground arith
  close-IsFramed false next k = ground arith

abbrev IsPlain : Session → Type 0
IsPlain w = (all is_plain w.lane ≡ true) × (all is_plain w.waiting ≡ true)

-- Where nothing more is sent and messages may be thrown away, only the place of the close counts.
pub stopped-Framed :
    (w : Session) → closes (earlier w.frames) ≡ 0 → IsPlain w → FramedAt Writer.stopped w
stopped-Framed w l p = ground arith

reporting-Framed :
    (error : WebSocketError) (acknowledge : Bool) (w : Session)
    → closes (earlier w.frames) ≡ 0
    → IsPlain w
    → FramedAt (Writer.reporting error acknowledge) w
reporting-Framed error acknowledge w l p = ground arith

pub lingering-Framed :
    (code : ℕ) (reason : List ℕ) (w : Session)
    → closes (earlier w.frames) ≡ 0
    → IsPlain w
    → FramedAt (Writer.lingering code reason) w
lingering-Framed code reason w l p = ground arith

-- A frame that fails, from a wait at which it may be sent.
failed-Framed :
    (config : SessionConfig) (frame : EngineFrame) (answer : SinkAnswer) (at : Writer) (w : Session)
    (error : WebSocketError) (acknowledge : Bool)
    → may_send at ≡ true
    → FramedAt at w
    → FramedAt (Writer.reporting error acknowledge) (handed config frame answer w)
unfolding handed
failed-Framed config frame (SinkAnswer.not_ready e) at w error acknowledge m f =
    reporting-Framed error acknowledge w f.last (f.plain_lane, f.plain_waiting)
failed-Framed config frame (SinkAnswer.not_started e) at w error acknowledge m f =
    start_send-Framed config frame _ w
      (reporting-Framed error acknowledge w f.last (f.plain_lane, f.plain_waiting))
failed-Framed config frame (SinkAnswer.not_flushed e) at w error acknowledge m f =
    let after : Session = record w { frames = frame ∷ w.frames } in
    start_send-Framed config frame _ after (
      reporting-Framed error acknowledge after (When-elim (may_send at) m f.unclosed)
        (f.plain_lane, f.plain_waiting))
failed-Framed config frame SinkAnswer.sent at w error acknowledge m f =
    let after : Session = record w { frames = frame ∷ w.frames } in
    start_send-Framed config frame _ after (
      reporting-Framed error acknowledge after (When-elim (may_send at) m f.unclosed)
        (f.plain_lane, f.plain_waiting))

sink_failed-Framed :
    (config : SessionConfig) (error : WebSocketEngineError) (acknowledge : Bool) (w : Session)
    → FramedAt (Writer.reporting (map_engine_error error) acknowledge) w
    → Framed (sink_failed config error acknowledge w)
unfolding sink_failed
sink_failed-Framed config error acknowledge w f =
    emit_terminal_failure-Framed config (map_engine_error error)
      (record w { writer = Writer.reporting (map_engine_error error) acknowledge }) f

resume_after-Framed :
    (resume : Resume) (w : Session) → FramedAt Writer.selecting w → Framed (resume_after resume w)
unfolding resume_after
resume_after-Framed Resume.to_loop w f = f
resume_after-Framed (Resume.to_drain next) w f = drain_lane-Framed next w.lane w f

failed_send-Framed :
    (config : SessionConfig) (frame : EngineFrame) (answer : SinkAnswer)
    (error : WebSocketEngineError) (acknowledge : Bool) (at : Writer) (w : Session)
    → may_send at ≡ true
    → FramedAt at w
    → Framed (sink_failed config error acknowledge (handed config frame answer w))
failed_send-Framed config frame answer error acknowledge at w m f =
    sink_failed-Framed config error acknowledge (handed config frame answer w)
      (failed-Framed config frame answer at w (map_engine_error error) acknowledge m f)

unready-Framed :
    (config : SessionConfig) (error : WebSocketEngineError) (acknowledge : Bool) (at : Writer)
    (w : Session)
    → FramedAt at w
    → Framed (sink_failed config error acknowledge w)
unready-Framed config error acknowledge at w f =
    sink_failed-Framed config error acknowledge w
      (reporting-Framed _ acknowledge w f.last (f.plain_lane, f.plain_waiting))

pub data_sent-Framed :
    (config : SessionConfig) (frame : EngineFrame) (resume : Resume) (answer : SinkAnswer)
    (w : Session)
    → FramedAt (Writer.sending_data frame resume) w
    → Framed (data_sent config frame resume answer w)
unfolding data_sent
data_sent-Framed config frame resume (SinkAnswer.not_ready e) w f =
    unready-Framed config e (acknowledges resume) (Writer.sending_data frame resume) w f
data_sent-Framed config frame resume (SinkAnswer.not_started e) w f =
    failed_send-Framed config frame (SinkAnswer.not_started e) e (acknowledges resume)
      (Writer.sending_data frame resume) w refl f
data_sent-Framed config frame resume (SinkAnswer.not_flushed e) w f =
    failed_send-Framed config frame (SinkAnswer.not_flushed e) e (acknowledges resume)
      (Writer.sending_data frame resume) w refl f
data_sent-Framed config frame resume SinkAnswer.sent w f =
    resume_after-Framed resume (handed config frame SinkAnswer.sent w) (
      start_send-Framed config frame Writer.selecting (record w { frames = frame ∷ w.frames })
        (data-IsFramed frame _ resume f))

pub control_sent-Framed :
    (config : SessionConfig) (frame : EngineFrame) (answer : SinkAnswer) (w : Session)
    → FramedAt (Writer.sending_control frame) w
    → Framed (control_sent config frame answer w)
unfolding control_sent
control_sent-Framed config frame (SinkAnswer.not_ready e) w f =
    unready-Framed config e false (Writer.sending_control frame) w f
control_sent-Framed config frame (SinkAnswer.not_started e) w f =
    failed_send-Framed config frame (SinkAnswer.not_started e) e false
      (Writer.sending_control frame) w refl f
control_sent-Framed config frame (SinkAnswer.not_flushed e) w f =
    failed_send-Framed config frame (SinkAnswer.not_flushed e) e false
      (Writer.sending_control frame) w refl f
control_sent-Framed config frame SinkAnswer.sent w f =
    maybe_send_one_data-Framed (handed config frame SinkAnswer.sent w) (
      start_send-Framed config frame Writer.selecting (record w { frames = frame ∷ w.frames })
        (control-IsFramed frame _ f))
