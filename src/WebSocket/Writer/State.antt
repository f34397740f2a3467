-- ===== src/WebSocket/Writer/State.antt =====
-- What the tasks of a session share (crates/openwire/src/websocket/writer.rs): the flags of the
-- session, the lanes, what the listeners are told, and where each task waits. The logs are kept
-- with the latest entry first.
use Prim.Native.String.{String}
use openwire.Base.{
  ◌||◌, ◌≡◌, true, ltb, max, arith, if_either, ℕ, ◌+◌, ◌%◌, ◌^◌, Bool, not, ◌&&◌, List, Option, ◌∷◌,
  if◌then◌else◌, ◌⊎◌,
}
use openwire.WebSocket.Error.{WebSocketEngineError}
use openwire.WebSocket.Handshake.{HandshakeFailure}
use openwire.WebSocket.Message.{EngineFrame, Message, MessageKind}

pub data TimeoutKind : Type 0 where
  handshake close ping : TimeoutKind

-- The message is kept of a `WireError` inside `Io`.
pub data WebSocketError : Type 0 where
  handshake : Option ℕ → HandshakeFailure → WebSocketError
  engine : WebSocketEngineError → WebSocketError
  closed_by_peer : ℕ → List ℕ → WebSocketError
  timeout : TimeoutKind → WebSocketError
  io : String → WebSocketError
  local_cancelled : WebSocketError

unfoldable pub map_engine_error : WebSocketEngineError → WebSocketError
map_engine_error (WebSocketEngineError.io message) = io message
map_engine_error error = engine error

pub data WriterCommand : Type 0 where
  pong ping : List ℕ → WriterCommand
  close close_ack : ℕ → List ℕ → WriterCommand
  ping_timeout cancel : WriterCommand

pub record SessionState : Type 0 where
  pub local_close_started : Bool
  pub remote_close_started : Bool
  pub closed_emitted : Bool
  pub call_terminal_emitted : Bool

unfoldable pub mark_local_close_started : SessionState → SessionState
mark_local_close_started s = record s { local_close_started = true }

unfoldable pub mark_remote_close_started : SessionState → SessionState
mark_remote_close_started s = record s { remote_close_started = true }

-- A swap of the flag: whether it was down, and the flag up.
unfoldable pub try_mark_closed : SessionState → Bool × SessionState
try_mark_closed s = (not s.closed_emitted, record s { closed_emitted = true })

unfoldable pub try_mark_call_terminal : SessionState → Bool × SessionState
try_mark_call_terminal s = (not s.call_terminal_emitted, record s { call_terminal_emitted = true })

pub data CloseInitiator : Type 0 where
  local remote : CloseInitiator

-- The calls of the listeners. `call_failed` has the error that its `WireError` is made of.
pub data Event : Type 0 where
  message_sent message_received : MessageKind → ℕ → Event
  ping_sent pong_received call_end : Event
  closing : ℕ → List ℕ → CloseInitiator → Event
  closed : ℕ → List ℕ → Event
  failed call_failed : WebSocketError → Event

-- The close timeout and the heartbeat's times are moves of the run, and the listeners are flags.
pub record SessionConfig : Type 0 where
  pub queue_size : ℕ
  pub deliver_control_frames : Bool
  pub has_context : Bool
  pub has_listener : Bool

abbrev pub is_observed : SessionConfig → Bool
is_observed config = config.has_context && config.has_listener

abbrev pub control_lane_capacity : ℕ
control_lane_capacity = 8

-- What follows when the data lane has been drained.
pub data Drain : Type 0 where
  on_shutdown on_lane_closed on_cancel : Drain
  on_close : ℕ → List ℕ → Drain

-- What follows a data frame.
pub data Resume : Type 0 where
  to_loop : Resume
  to_drain : Drain → Resume

-- What follows a flush.
pub data AfterFlush : Type 0 where
  cancelled ends : AfterFlush
  lingers : ℕ → List ℕ → AfterFlush

-- Where the writer waits: at its `select!`, for the sink to send a frame or to flush, for the
-- receiver's lane, or for the end of the close timeout. A report says whether a close is to be
-- acknowledged behind it.
pub data Writer : Type 0 where
  selecting stopped reporting_ping_timeout : Writer
  sending_data : EngineFrame → Resume → Writer
  sending_control : EngineFrame → Writer
  sending_close : EngineFrame → AfterFlush → Writer
  flushing : AfterFlush → Writer
  reporting : WebSocketError → Bool → Writer
  lingering : ℕ → List ℕ → Writer

-- Where the reader waits: for the stream, or for room in a lane.
pub data Reader : Type 0 where
  reading finished : Reader
  ponging : List ℕ → Reader
  offering : Message → Reader
  offering_last : WebSocketError → WriterCommand → Reader
  commanding : WriterCommand → Reader

-- Where the heartbeat waits: for a tick, for room in the control lane, or for a pong.
pub data Heartbeat : Type 0 where
  waiting sending_timeout off : Heartbeat
  sending_ping awaiting : ℕ → Heartbeat

-- `offered` is a history of what was put on the receiver's lane; `undelivered` counts what is still
-- on it, and `receiver_open` says whether the receiver has not been dropped. `accepted` is a history
-- of the messages that were ever put on the data lane, as frames. `waiting`
-- holds the messages of calls of `send` that wait for room there, `pending_close` the command of a
-- call of `close` that waits for room in the control lane.
pub record Session : Type 0 where
  pub session : SessionState
  pub told : List Event
  pub frames : List EngineFrame
  pub offered : List (Message ⊎ WebSocketError)
  pub undelivered : ℕ
  pub receiver_open : Bool
  pub acks : ℕ
  pub control : List WriterCommand
  pub control_connected : Bool
  pub lane : List Message
  pub data_open : Bool
  pub data_connected : Bool
  pub waiting : List Message
  pub pending_close : List WriterCommand
  pub accepted : List EngineFrame
  pub shutdown : Bool
  pub sender_closed : Bool
  pub generation : ℕ
  pub writer : Writer
  pub reader : Reader
  pub heartbeat : Heartbeat

-- `PongTracker::mark`, of a `u64`. Without a heartbeat nothing reads the count.
unfoldable pub mark : Session → Session
mark w = record w { generation = (w.generation + 1) % 2 ^ 64 }

unfoldable pub tell_if : Bool → Event → Session → Session
tell_if b e w = record w { told = if b then e ∷ w.told else w.told }

unfoldable pub emit_terminal_failure : SessionConfig → WebSocketError → Session → Session
unfolding try_mark_call_terminal tell_if
emit_terminal_failure config error w =
    if config.has_context
    then (let (first, s) = try_mark_call_terminal w.session in
        let marked = record w { session = s } in
        if first
        then tell_if true (call_failed error) (tell_if config.has_listener (failed error) marked)
        else marked)
    else w

unfoldable pub emit_call_end : SessionConfig → Session → Session
unfolding try_mark_call_terminal tell_if
emit_call_end config w =
    if config.has_context
    then (let (first, s) = try_mark_call_terminal w.session in
        tell_if first call_end (record w { session = s }))
    else w

-- The close is reported, once.
unfoldable pub emit_closed : SessionConfig → ℕ → List ℕ → Session → Session
unfolding try_mark_closed tell_if emit_call_end
emit_closed config code reason w =
    let (first, s) = try_mark_closed w.session in
    let marked = record w { session = s } in
    if first
    then emit_call_end config (tell_if (is_observed config) (closed code reason) marked)
    else marked

-- `out.send(item).await` into the receiver's lane and what the task does next: nothing is put there once
-- the receiver has been dropped, and a task waits while the lane is full.
abbrev pub has_room : SessionConfig → Session → Bool
has_room config w = not w.receiver_open || ltb w.undelivered (max config.queue_size 1)

unfoldable pub offer :
    SessionConfig → Message ⊎ WebSocketError → (Session → Session) → Session → Session
offer config item next w =
    if not w.receiver_open
    then next w
    else if ltb w.undelivered (max config.queue_size 1)
    then next (record w { offered = item ∷ w.offered; undelivered = w.undelivered + 1 })
    else w

-- An offer that goes through, and one that may wait.
pub offer_through :
    (P : Session → Type 0) (config : SessionConfig) (item : Message ⊎ WebSocketError)
    (next : Session → Session) (w : Session)
    → has_room config w ≡ true
    → ((offered : List (Message ⊎ WebSocketError)) (n : ℕ)
        → P (next (record w { offered = offered; undelivered = n })))
    → P (offer config item next w)
unfolding offer
offer_through P config item next w r go =
    if_either P (not w.receiver_open) _ _ (λ _. go w.offered w.undelivered)
      (λ e.
        if_either P (ltb w.undelivered (max config.queue_size 1)) _ _ (λ _. go _ _)
          (λ g. absurd (ground arith)))

pub offer_either :
    (P : Session → Type 0) (config : SessionConfig) (item : Message ⊎ WebSocketError)
    (next : Session → Session) (w : Session)
    → ((offered : List (Message ⊎ WebSocketError)) (n : ℕ)
        → P (next (record w { offered = offered; undelivered = n })))
    → P w
    → P (offer config item next w)
unfolding offer
offer_either P config item next w go stay =
    if_either P (not w.receiver_open) _ _ (λ _. go w.offered w.undelivered)
      (λ _. if_either P (ltb w.undelivered (max config.queue_size 1)) _ _ (λ _. go _ _) (λ _. stay))
