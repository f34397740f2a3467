-- ===== src/WebSocket/Message.antt =====
-- crates/openwire-core/src/websocket/message.rs and the frames of engine.rs beside it. A text is
-- the list of its UTF-8 bytes.
use Prim.Native.String.{String}
use openwire.Base.{
  ℕ, ◌+◌, ◌≡◌, refl, Bool, true, false, ◌&&◌, ◌||◌, not, List, [], ◌∷◌, Option, none, some, ltb,
  between, ◌==◌, if◌then◌else◌, length, ok, err,
}
use openwire.WebSocket.Error.{EngineResult, invalid_close_code, refuse_if}

pub data EngineFrame : Type 0 where
  text binary ping pong : List ℕ → EngineFrame
  close : ℕ → List ℕ → EngineFrame

pub data Message : Type 0 where
  text binary ping pong : List ℕ → Message
  close : ℕ → List ℕ → Message

pub data MessageKind : Type 0 where
  text binary : MessageKind

abbrev pub max_control_frame_payload_bytes : ℕ
max_control_frame_payload_bytes = 125

abbrev pub max_close_reason_bytes : ℕ
max_close_reason_bytes = 123

abbrev pub close_no_status_code : ℕ
close_no_status_code = 1005

pub kind : Message → Option MessageKind
kind (Message.text s) = some MessageKind.text
kind (Message.binary b) = some MessageKind.binary
kind _ = none

unfoldable pub payload_len : Message → ℕ
payload_len (Message.text s) = length s
payload_len (Message.binary b) = length b
payload_len (Message.ping b) = length b
payload_len (Message.pong b) = length b
payload_len (Message.close code reason) = 2 + length reason

-- `From<Message> for EngineFrame`, and back.
unfoldable pub to_engine_frame : Message → EngineFrame
to_engine_frame (Message.text s) = EngineFrame.text s
to_engine_frame (Message.binary b) = EngineFrame.binary b
to_engine_frame (Message.ping b) = EngineFrame.ping b
to_engine_frame (Message.pong b) = EngineFrame.pong b
to_engine_frame (Message.close code reason) = EngineFrame.close code reason

unfoldable pub to_message : EngineFrame → Message
to_message (EngineFrame.text s) = Message.text s
to_message (EngineFrame.binary b) = Message.binary b
to_message (EngineFrame.ping b) = Message.ping b
to_message (EngineFrame.pong b) = Message.pong b
to_message (EngineFrame.close code reason) = Message.close code reason

unfoldable pub close_code_is_valid : ℕ → Bool
close_code_is_valid code =
    between 1000 1003 code || between 1007 1014 code || between 3000 4999 code

unfoldable pub validate_close_frame : ℕ → List ℕ → EngineResult (Unit {0})
validate_close_frame code reason =
    if not (close_code_is_valid code)
    then err (invalid_close_code code)
    else refuse_if (ltb max_close_reason_bytes (length reason)) "close reason exceeds 123 bytes"

unfoldable pub validate_control_payload_len : String → ℕ → EngineResult (Unit {0})
validate_control_payload_len message len =
    refuse_if (ltb max_control_frame_payload_bytes len) message

unfoldable pub validate_outbound_message : Message → EngineResult (Unit {0})
unfolding validate_control_payload_len validate_close_frame
validate_outbound_message (Message.ping payload) =
    validate_control_payload_len "ping control frame exceeds 125 bytes" (length payload)
validate_outbound_message (Message.pong payload) =
    validate_control_payload_len "pong control frame exceeds 125 bytes" (length payload)
validate_outbound_message (Message.close code reason) = validate_close_frame code reason
validate_outbound_message (Message.text s) = ok tt
validate_outbound_message (Message.binary b) = ok tt

abbrev pub is_empty {ℓ} : {A : Type ℓ} → List A → Bool
is_empty [] = true
is_empty (x ∷ xs) = false

unfoldable pub validate_outbound_engine_frame : EngineFrame → EngineResult (Unit {0})
unfolding validate_control_payload_len validate_close_frame
validate_outbound_engine_frame (EngineFrame.ping payload) =
    validate_control_payload_len "ping control frame exceeds 125 bytes" (length payload)
validate_outbound_engine_frame (EngineFrame.pong payload) =
    validate_control_payload_len "pong control frame exceeds 125 bytes" (length payload)
validate_outbound_engine_frame (EngineFrame.close code reason) =
    if code == close_no_status_code && is_empty reason
    then ok tt
    else validate_close_frame code reason
validate_outbound_engine_frame (EngineFrame.text s) = ok tt
validate_outbound_engine_frame (EngineFrame.binary b) = ok tt

pub to_message-to_engine_frame : (m : Message) → to_message (to_engine_frame m) ≡ m
unfolding to_message to_engine_frame
to_message-to_engine_frame (Message.text s) = refl
to_message-to_engine_frame (Message.binary b) = refl
to_message-to_engine_frame (Message.ping b) = refl
to_message-to_engine_frame (Message.pong b) = refl
to_message-to_engine_frame (Message.close code reason) = refl

abbrev pub is_control_message : Message → Bool
is_control_message (Message.text s) = false
is_control_message (Message.binary b) = false
is_control_message _ = true
