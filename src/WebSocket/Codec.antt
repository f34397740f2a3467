-- ===== src/WebSocket/Codec.antt =====
-- crates/openwire/src/websocket/native/codec.rs: frames as bytes. A byte is a number below 256;
-- `b & mask` for a run of bits is written by division and remainder.
pub mod HeaderBytes
pub mod RoundTrip
pub mod Bounds
pub mod Chunks
use openwire.Base.{
  ℕ, ◌+◌, ◌-◌, ◌/◌, ◌%◌, ◌^◌, Bool, true, false, not, ◌&&◌, ◌||◌, List, [], ◌∷◌, ◌++◌, Option, none,
  some, bit_or, leb, ltb, ◌==◌, if◌then◌else◌, length, take, drop, is_some, ok, err, ◌>>=◌, ◌>>◌,
}
use openwire.WebSocket.Bytes.{to_be_bytes, from_be_bytes}
use openwire.WebSocket.Mask.{mask_in_place}
use openwire.WebSocket.Error.{
  EngineResult, invalid_frame, payload_too_large, usize_max, u16_max, refuse_if, ok_or,
}

pub data Opcode : Type 0 where
  continuation text binary close ping pong : Opcode

-- `opcode as u8`.
abbrev pub opcode_byte : Opcode → ℕ
opcode_byte continuation = 0x0
opcode_byte text = 0x1
opcode_byte binary = 0x2
opcode_byte close = 0x8
opcode_byte ping = 0x9
opcode_byte pong = 0xa

unfoldable pub from_byte : ℕ → Option Opcode
from_byte b =
    let low = b % 16 in
    if low == 0x0
    then some continuation
    else if low == 0x1
    then some text
    else if low == 0x2
    then some binary
    else if low == 0x8
    then some close
    else if low == 0x9
    then some ping
    else if low == 0xa
    then some pong
    else none

abbrev pub is_control : Opcode → Bool
is_control close = true
is_control ping = true
is_control pong = true
is_control _ = false

pub record FrameHeader : Type 0 where
  pub fin : Bool
  pub opcode : Opcode

pub record DecodedFrame : Type 0 where
  pub fin : Bool
  pub opcode : Opcode
  pub payload : List ℕ

-- The length field behind the first byte, with the mask bit in it.
encode_length : ℕ → ℕ → List ℕ
encode_length mask_bit len =
    if leb len 125
    then bit_or mask_bit (len % 256) ∷ []
    else if leb len u16_max
    then bit_or mask_bit 126 ∷ to_be_bytes 2 (len % 2 ^ 16)
    else bit_or mask_bit 127 ∷ to_be_bytes 8 (len % 2 ^ 64)

pub encode_payload : List ℕ → Option (List ℕ) → List ℕ
encode_payload payload none = payload
encode_payload payload (some key) = key ++ mask_in_place payload key

-- What `encode_frame` appends to `out`.
unfoldable pub encode_frame : FrameHeader → List ℕ → Option (List ℕ) → List ℕ
unfolding encode_length encode_payload
encode_frame header payload mask =
    bit_or (if header.fin then 0x80 else 0x00) (opcode_byte header.opcode)
    ∷ (encode_length (if is_some mask then 0x80 else 0x00) (length payload)
        ++ encode_payload payload mask)

-- The header's length and the payload's, or `none` while the length field is not there yet.
pub frame_length : ℕ → List ℕ → ℕ → EngineResult (Option (ℕ × ℕ))
frame_length len_field buf max_frame_size =
    if leb len_field 125
    then ok (some (2, len_field))
    else if len_field == 126
    then (if ltb (length buf) 4
        then ok none
        else let payload_len = from_be_bytes (take 2 (drop 2 buf)) in
          (if leb payload_len 125
            then err (invalid_frame "non-minimal payload length encoding")
            else ok (some (4, payload_len))))
    else (if ltb (length buf) 10
        then ok none
        else let payload_len = from_be_bytes (take 8 (drop 2 buf)) in
          (if payload_len / 2 ^ 63 % 2 == 1
            then err (invalid_frame "invalid 64-bit payload length")
            else if leb payload_len u16_max
            then err (invalid_frame "non-minimal payload length encoding")
            else if ltb usize_max payload_len
            then err (payload_too_large max_frame_size usize_max)
            else ok (some (10, payload_len))))

-- The checks on the payload's length, and the frame with what is left of the buffer.
take_payload : Bool → Opcode → ℕ → ℕ → List ℕ → ℕ → EngineResult (Option (DecodedFrame × List ℕ))
take_payload fin opcode header_len payload_len buf max_frame_size =
    if is_control opcode && ltb 125 payload_len
    then err (invalid_frame "control frame > 125 bytes")
    else if ltb max_frame_size payload_len
    then err (payload_too_large max_frame_size payload_len)
    else if ltb (length buf) (header_len + payload_len)
    then ok none
    else ok (
        some (
          record { fin = fin; opcode = opcode; payload = take payload_len (drop header_len buf) },
          drop payload_len (drop header_len buf),
        ))

frame_payload :
    Bool → Opcode → List ℕ → ℕ → Option (ℕ × ℕ) → EngineResult (Option (DecodedFrame × List ℕ))
unfolding take_payload
frame_payload fin opcode buf max_frame_size none = ok none
frame_payload fin opcode buf max_frame_size (some (header_len, payload_len)) =
    take_payload fin opcode header_len payload_len buf max_frame_size

decode_from : ℕ → ℕ → List ℕ → ℕ → EngineResult (Option (DecodedFrame × List ℕ))
unfolding frame_length frame_payload
decode_from b0 b1 buf max_frame_size = do
  let fin = b0 / 128 % 2 == 1
  refuse_if (not (b0 / 16 % 8 == 0)) "reserved bits set"
  opcode ← ok_or (from_byte b0) (invalid_frame "unknown opcode")
  refuse_if (b1 / 128 % 2 == 1) "server frames must not be masked"
  refuse_if (is_control opcode && not fin) "fragmented control frame"
  header ← frame_length (b1 % 128) buf max_frame_size
  frame_payload fin opcode buf max_frame_size header

-- `ok none` asks for more bytes. The buffer changes only with a frame: what is left stands beside it.
unfoldable pub decode_frame : List ℕ → ℕ → EngineResult (Option (DecodedFrame × List ℕ))
unfolding decode_from
decode_frame [] max_frame_size = ok none
decode_frame (b0 ∷ []) max_frame_size = ok none
decode_frame (b0 ∷ b1 ∷ rest) max_frame_size = decode_from b0 b1 (b0 ∷ b1 ∷ rest) max_frame_size
