-- ===== src/WebSocket/Writer/Reports/Defs.antt =====
-- What has been told of the end of a session, and what keeps it so.
use openwire.Base.{
  ℕ, ◌+◌, ◌≤◌, ◌≡◌, Bool, true, false, not, ◌&&◌, List, [], ◌∷◌, arith, if◌then◌else◌, if_either,
}
use openwire.WebSocket.Writer.State.{
  Session, SessionConfig, Event, WebSocketError, tell_if, emit_terminal_failure, emit_closed,
}

abbrev pub ends_call : Event → Bool
ends_call Event.call_end = true
ends_call (Event.call_failed error) = true
ends_call _ = false

abbrev pub tells_close : Event → Bool
tells_close (Event.closed code reason) = true
tells_close _ = false

abbrev pub tells_failure : Event → Bool
tells_failure (Event.failed error) = true
tells_failure _ = false

abbrev pub count : (Event → Bool) → List Event → ℕ
count p [] = 0
count p (e ∷ told) = (if p e then 1 else 0) + count p told

-- With the flags of the end of the call and of the close.
pub record IsReported (ended closed : Bool) (told : List Event) : Type 0 where
  pub ended_once : count ends_call told ≤ (if ended then 1 else 0)
  pub failed_once : count tells_failure told ≤ (if ended then 1 else 0)
  pub closed_once : count tells_close told ≤ (if closed then 1 else 0)

abbrev pub Told : Session → Type 0
Told w = IsReported w.session.call_terminal_emitted w.session.closed_emitted w.told

abbrev is_ordinary : Event → Bool
is_ordinary e = not (ends_call e) && not (tells_close e) && not (tells_failure e)

pub tell_if-Told :
    (b : Bool) (e : Event) (w : Session) → is_ordinary e ≡ true → Told w → Told (tell_if b e w)
unfolding tell_if
tell_if-Told false e w o t = t
tell_if-Told true (Event.message_sent k n) w o t = ground arith
tell_if-Told true (Event.message_received k n) w o t = ground arith
tell_if-Told true Event.ping_sent w o t = ground arith
tell_if-Told true Event.pong_received w o t = ground arith
tell_if-Told true (Event.closing code reason initiator) w o t = ground arith
tell_if-Told true Event.call_end w o t = cc
tell_if-Told true (Event.closed code reason) w o t = cc
tell_if-Told true (Event.failed error) w o t = cc
tell_if-Told true (Event.call_failed error) w o t = cc

pub emit_terminal_failure-Told :
    (config : SessionConfig) (error : WebSocketError) (w : Session)
    → Told w
    → Told (emit_terminal_failure config error w)
unfolding emit_terminal_failure
emit_terminal_failure-Told config error w t = ground arith

pub emit_closed-Told :
    (config : SessionConfig) (code : ℕ) (reason : List ℕ) (w : Session)
    → Told w
    → Told (emit_closed config code reason w)
unfolding emit_closed
emit_closed-Told config code reason w t = ground arith

pub Told-if : (b : Bool) (v w : Session) → Told v → Told w → Told (if b then v else w)
Told-if b v w s t = if_either Told b v w (λ _. s) (λ _. t)
