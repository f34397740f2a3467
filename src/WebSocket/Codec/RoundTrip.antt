-- ===== src/WebSocket/Codec/RoundTrip.antt =====
-- Reading back what `encode_frame` wrote, and what a client's masked frame looks like.
use openwire.Base.{
  ℕ, ◌+◌, ◌/◌, ◌%◌, ◌^◌, ◌≤◌, ◌<◌, ◌≡◌, refl, Bool, true, false, not, ◌&&◌, List, ◌++◌,
  append_assoc, none, some, arith, ltb, ◌==◌, ltb-false, length, length-append, take-append_length,
  drop-append_length, ok, err,
}
use openwire.WebSocket.Error.{invalid_frame}
use openwire.WebSocket.Codec.{
  Opcode, is_control, FrameHeader, DecodedFrame, encode_payload, encode_frame, take_payload,
  decode_frame,
}
use openwire.WebSocket.Codec.HeaderBytes.{
  first_byte, first_byte_fields, length_field, header_bytes, encode_frame_bytes, length_field-lt,
  length-header_bytes, frame_length-extended_length,
}

-- The frame that the receiver of such bytes sees.
abbrev pub frame_of : FrameHeader → List ℕ → DecodedFrame
frame_of header payload = record { fin = header.fin; opcode = header.opcode; payload = payload }

-- What a control frame must be: in one piece, and short.
abbrev pub IsControlSized : FrameHeader → List ℕ → Type 0
IsControlSized header payload =
    is_control header.opcode ≡ true → (header.fin ≡ true) × (length payload ≤ 125)

take_payload-append :
    (fin : Bool) (opcode : Opcode) (head payload rest : List ℕ) (max_frame_size : ℕ)
    → length payload ≤ max_frame_size
    → (is_control opcode && ltb 125 (length payload)) ≡ false
    → take_payload fin opcode
        (length head)
        (length payload)
        (head ++ (payload ++ rest))
        max_frame_size
      ≡ ok (some (record { fin = fin; opcode = opcode; payload = payload }, rest))
unfolding take_payload
take_payload-append fin opcode head payload rest max_frame_size small control = rw (
  control,
  ltb-false max_frame_size (length payload) small,
  ltb-false (length (head ++ (payload ++ rest))) (length head + length payload)
      (omega (arith, length-append head (payload ++ rest), length-append payload rest)),
  drop-append_length (length head) head (payload ++ rest) refl,
  take-append_length (length payload) payload rest refl,
  drop-append_length (length payload) payload rest refl,
)

-- The decoder reads any header that `encode_frame` writes without a mask.
decode_from-header :
    (header : FrameHeader) (payload rest : List ℕ) (max_frame_size : ℕ)
    → length payload < 2 ^ 63
    → length payload ≤ max_frame_size
    → (is_control header.opcode && not header.fin) ≡ false
    → (is_control header.opcode && ltb 125 (length payload)) ≡ false
    → decode_frame (header_bytes header false (length payload) ++ (payload ++ rest)) max_frame_size
      ≡ ok (some (frame_of header payload, rest))
unfolding decode_frame
decode_from-header header payload rest max_frame_size h small whole short =
    let len = length payload in
    let (reserved, opcode, fin) = first_byte_fields header.fin header.opcode in
    let field : (0 + length_field len) % 128 ≡ length_field len =
      omega (arith, length_field-lt len) in
    let unmasked : ((0 + length_field len) / 128 % 2 == 1) ≡ false =
      ground (arith, length_field-lt len) in
    rw
      (
        reserved,
        opcode,
        fin,
        unmasked,
        whole,
        field,
        frame_length-extended_length (first_byte header.fin header.opcode) (0 + length_field len)
            len max_frame_size (payload ++ rest) h,
      )
      (rw (← length-header_bytes header false len) (
        take_payload-append header.fin header.opcode (header_bytes header false len) payload rest
          max_frame_size small short))

-- A frame whose payload is within max_frame_size and below 2^63 bytes, and that, if it is a control
-- frame, is whole and carries at most 125 bytes, is read back as it was when it was written without a
-- mask, whatever bytes follow it.
pub decode_frame-encode_frame :
    (header : FrameHeader) (payload rest : List ℕ) (max_frame_size : ℕ)
    → length payload < 2 ^ 63
    → length payload ≤ max_frame_size
    → IsControlSized header payload
    → decode_frame (encode_frame header payload none ++ rest) max_frame_size
      ≡ ok (some (frame_of header payload, rest))
unfolding encode_payload
decode_frame-encode_frame header payload rest max_frame_size h small control =
    rw (encode_frame_bytes header payload none h, append_assoc)
      (decode_from-header header payload rest max_frame_size h small (ground arith) (ground arith))

-- No masked frame is read: what a client writes, a client refuses.
pub decode_frame-encode_frame_masked :
    (header : FrameHeader) (payload key rest : List ℕ) (max_frame_size : ℕ)
    → length payload < 2 ^ 63
    → decode_frame (encode_frame header payload (some key) ++ rest) max_frame_size
      ≡ err (invalid_frame "server frames must not be masked")
unfolding decode_frame
decode_frame-encode_frame_masked header payload key rest max_frame_size h =
    let len = length payload in
    let (reserved, opcode, fin) = first_byte_fields header.fin header.opcode in
    let masked : ((128 + length_field len) / 128 % 2 == 1) ≡ true =
      ground (arith, length_field-lt len) in
    rw (encode_frame_bytes header payload (some key) h, reserved, opcode, masked) refl
