-- ===== src/WebSocket/Session.antt =====
-- crates/openwire/src/websocket/native/session.rs: fragments put together into messages. The
-- clauses that the source marks `unreachable!` and a failed `expect` answer with the panic's text.
pub mod Invariant
pub mod Fragments
use openwire.Base.{
  ℕ, ◌+◌, ◌≡◌, Bool, true, false, List, [], ◌∷◌, ◌++◌, Option, none, some, ltb, if◌then◌else◌,
  length, is_some, ok, err, ◌>>=◌, ◌>>◌,
}
use openwire.WebSocket.Bytes.{from_be_bytes, is_utf8}
use openwire.WebSocket.Error.{
  EngineResult, WebSocketEngineError, invalid_frame, invalid_utf8, invalid_close_code,
  payload_too_large, usize_max,
}
use openwire.WebSocket.Codec.{Opcode, DecodedFrame, is_control}
use openwire.WebSocket.Message.{EngineFrame, close_code_is_valid}

pub record InProgress : Type 0 where
  pub opcode : Opcode
  pub buffer : List ℕ

pub record ReassemblyState : Type 0 where
  pub max_message_size : ℕ
  pub in_progress : Option InProgress

-- `ReassemblyState::new`.
unfoldable pub new : ℕ → ReassemblyState
new max_message_size = record { max_message_size = max_message_size; in_progress = none }

-- What `feed` leaves in place of the state, and what it returns.
abbrev pub Fed : Type 0
Fed = ReassemblyState × EngineResult (Option EngineFrame)

unfoldable pub check_message_size : ℕ → ℕ → EngineResult (Unit {0})
check_message_size max_message_size received =
    if ltb max_message_size received
    then err (payload_too_large max_message_size received)
    else ok tt

unfoldable pub deliver : Opcode → List ℕ → EngineResult (Option EngineFrame)
deliver Opcode.text payload =
    if is_utf8 payload then ok (some (EngineFrame.text payload)) else err invalid_utf8
deliver Opcode.binary payload = ok (some (EngineFrame.binary payload))
deliver _ payload = err (invalid_frame "unreachable: deliver_single only handles Text/Binary")

unfoldable pub deliver_single : ℕ → Opcode → List ℕ → EngineResult (Option EngineFrame)
unfolding check_message_size deliver
deliver_single max_message_size opcode payload = do
  check_message_size max_message_size (length payload)
  deliver opcode payload

unfoldable pub parse_close : List ℕ → EngineResult EngineFrame
parse_close [] = ok (EngineFrame.close 1005 [])
parse_close (b ∷ []) = err (invalid_frame "close payload of length 1")
parse_close (b0 ∷ b1 ∷ reason) =
    let code = from_be_bytes (b0 ∷ b1 ∷ []) in
    if close_code_is_valid code
    then (if is_utf8 reason then ok (EngineFrame.close code reason) else err invalid_utf8)
    else err (invalid_close_code code)

unfoldable pub parse_control : Opcode → List ℕ → EngineResult EngineFrame
unfolding parse_close
parse_control Opcode.ping payload = ok (EngineFrame.ping payload)
parse_control Opcode.pong payload = ok (EngineFrame.pong payload)
parse_control Opcode.close payload = parse_close payload
parse_control _ payload =
    err (invalid_frame "unreachable: parse_control only handles control opcodes")

-- The buffer with the fragment behind it; the last fragment empties the state and delivers.
append_fragment : ReassemblyState → InProgress → Bool → List ℕ → Fed
unfolding check_message_size deliver_single
append_fragment s part fin payload =
    let joined = part.buffer ++ payload in
    elim (check_message_size s.max_message_size (length part.buffer + length payload)) [
      | err e ↦ (s, err e)
      | ok _ ↦
          if fin
          then (
            record s { in_progress = none },
            deliver_single s.max_message_size part.opcode joined,
          )
          else (
            record s { in_progress = some (record { opcode = part.opcode; buffer = joined }) },
            ok none,
          )
    ]

-- `checked_add` fails past `usize::MAX`, and the state stays.
append_continuation : ReassemblyState → Option InProgress → Bool → List ℕ → Fed
unfolding append_fragment
append_continuation s none fin payload =
    (s, err (invalid_frame "checked by caller before calling append"))
append_continuation s (some part) fin payload =
    if ltb usize_max (length part.buffer + length payload)
    then (s, err (payload_too_large s.max_message_size usize_max))
    else append_fragment s part fin payload

start_message : ReassemblyState → Bool → Opcode → List ℕ → Fed
unfolding check_message_size deliver_single
start_message s fin opcode payload =
    if fin
    then (s, deliver_single s.max_message_size opcode payload)
    else elim (check_message_size s.max_message_size (length payload)) [
      | err e ↦ (s, err e)
      | ok _ ↦
          (record s { in_progress = some (record { opcode = opcode; buffer = payload }) }, ok none)
    ]

-- The `match` on the opcode and on whether a message is in progress.
feed_data : ReassemblyState → Bool → Opcode → List ℕ → Bool → Fed
unfolding append_continuation start_message
feed_data s fin Opcode.continuation payload false =
    (s, err (invalid_frame "orphan continuation frame"))
feed_data s fin Opcode.continuation payload true = append_continuation s s.in_progress fin payload
feed_data s fin Opcode.text payload false = start_message s fin Opcode.text payload
feed_data s fin Opcode.binary payload false = start_message s fin Opcode.binary payload
feed_data s fin Opcode.text payload true =
    (s, err (invalid_frame "nested data frame while reassembling"))
feed_data s fin Opcode.binary payload true =
    (s, err (invalid_frame "nested data frame while reassembling"))
feed_data s fin _ payload _ = (s, err (invalid_frame "unreachable: control frames handled above"))

unfoldable pub feed : ReassemblyState → DecodedFrame → Fed
unfolding feed_data parse_control
feed s frame =
    if is_control frame.opcode
    then (s, parse_control frame.opcode frame.payload >>= λ f. ok (some f))
    else feed_data s frame.fin frame.opcode frame.payload (is_some s.in_progress)

unfoldable pub end_of_stream : ReassemblyState → EngineResult (Unit {0})
end_of_stream s =
    if is_some s.in_progress then err (invalid_frame "incomplete fragmented message") else ok tt
