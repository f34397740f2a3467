-- ===== src/WebSocket/Writer/Reports.antt =====
-- What the listeners are told of the end of a session.
pub mod Defs
mod Writing
mod Reading
use openwire.Base.{◌≡◌, Bool, true, false, List, [], ◌∷◌, arith, if◌then◌else◌}
use openwire.WebSocket.Writer.State.{Session, SessionConfig, WriterCommand}
use openwire.WebSocket.Writer.Tasks.{send, close, drop_sender, receive, drop_receiver}
use openwire.WebSocket.Writer.Run.{
  Move, step, run, spawn_session, disconnect, called, holds_no_sender, reached,
}
use Defs.{IsReported, Told, Told-if}
use Writing.{advance-Told, close_times_out-Told}
use Reading.{
  send_command-Told, read-Told, beat-Told, queue_data-Told, queue_close-Told, send-Told, close-Told,
}

called-Told : (after w : Session) → Told after → Told w → Told (called after w)
unfolding called
called-Told after w k t = Told-if w.data_connected _ _ k t

step-Told :
    (config : SessionConfig) (move : Move) (w : Session) → Told w → Told (step config move w)
unfolding step drop_sender disconnect receive drop_receiver
step-Told config (Move.writes answer) w t = advance-Told config answer w.writer w t
step-Told config Move.times_out w t = close_times_out-Told config w.writer w t
step-Told config Move.queues w t = queue_data-Told config w.waiting w t
step-Told config Move.queues_close w t = queue_close-Told w.pending_close w t
step-Told config Move.drops w t =
    called-Told (drop_sender w) w (send_command-Told WriterCommand.cancel (λ s. s) w (λ s k. k) t) t
step-Told config Move.disconnects w t =
    Told-if (holds_no_sender w.reader w.heartbeat w.data_connected) _ _ t t
step-Told config Move.receives w t = t
step-Told config Move.leaves w t = t
step-Told config (Move.reads item) w t = read-Told config item w.reader w t
step-Told config (Move.beats elapsed) w t = beat-Told elapsed w.heartbeat w t
step-Told config (Move.sends m) w t = called-Told (send m w).1 w (send-Told m w t) t
step-Told config (Move.closes code reason) w t =
    called-Told (close code reason w).1 w (close-Told code reason w t) t

run-Told :
    (config : SessionConfig) (moves : List Move) (w : Session) → Told w → Told (run config moves w)
unfolding run
run-Told config [] w t = t
run-Told config (move ∷ moves) w t =
    run-Told config moves (step config move w) (step-Told config move w t)

-- However the tasks of a session and the holders of its sender and receiver interleave, and whatever
-- the engine answers: the end of the call, by its success or by its failure, is told at most once and
-- not before the flag of it is up, a failure of the session likewise with the same flag, and a close
-- at most once and not before its own flag is up.
pub run-IsReported :
    (config : SessionConfig) (heartbeat : Bool) (moves : List Move)
    → IsReported
        (reached config heartbeat moves).session.call_terminal_emitted
        (reached config heartbeat moves).session.closed_emitted
        (reached config heartbeat moves).told
unfolding spawn_session
run-IsReported config heartbeat moves =
    run-Told config moves (spawn_session heartbeat) (ground arith)
