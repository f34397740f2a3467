-- ===== src/WebSocket/Examples.antt =====
-- Frames, messages and streams at concrete inputs.
use openwire.Base.{
  get_or, bit_xor, ℕ, ◌≡◌, refl, inl, true, false, List, [], ◌∷◌, ◌++◌, none, some, arith, ok,
}
use openwire.WebSocket.Bytes.{is_utf8, to_be_bytes}
use openwire.WebSocket.Mask.{mask_in_place, mask_in_place-mask_in_place}
use openwire.WebSocket.Codec.{
  Opcode, from_byte, FrameHeader, DecodedFrame, encode_frame, decode_frame,
}
use openwire.WebSocket.Codec.RoundTrip.{frame_of, decode_frame-encode_frame}
use openwire.WebSocket.Codec.Bounds.{IsCutFrom, decode_frame-IsCutFrom}
use openwire.WebSocket.Codec.Chunks.{with_more, decode_frame-append}
use openwire.WebSocket.Message.{
  close_code_is_valid, Message, EngineFrame, validate_outbound_engine_frame,
}
use openwire.WebSocket.Session.{new, feed, deliver_single}
use openwire.WebSocket.Session.Invariant.{IsFed, feed-IsFed}
use openwire.WebSocket.Session.Fragments.{run_frames, fragments, joined, run_frames-fragments}
use openwire.WebSocket.Engine.{
  frame_header, frame_payload, NativeStream, new_stream, Polled, ReadEvent, chunk, not_yet,
  poll_next, ready,
}
use openwire.WebSocket.Engine.Loopback.{feed-decode_frame-encode_frame}
use openwire.WebSocket.Engine.Stream.{IsPolled, poll_next-IsPolled, poll_next-done}

abbrev hi : List ℕ
hi = b'h' ∷ b'i' ∷ []

abbrev text_header : FrameHeader
text_header = record { fin = true; opcode = Opcode.text }

abbrev key : List ℕ
key = 0x37 ∷ 0xfa ∷ 0x21 ∷ 0x3d ∷ []

encode_hi : encode_frame text_header hi none ≡ 0x81 ∷ 0x02 ∷ hi
unfolding encode_frame
encode_hi = refl

mask_in_place-mask_in_place_example :
    (get_or (mask_in_place hi key) 1 0 ≡ bit_xor (get_or hi 1 0) (get_or key 1 0))
    × (mask_in_place (mask_in_place hi key) key ≡ hi)
mask_in_place-mask_in_place_example =
    mask_in_place-mask_in_place key hi 1 (omega arith) (omega arith) (omega arith)

decode_frame-encode_frame_example :
    decode_frame (encode_frame text_header hi none ++ (7 ∷ [])) 16
    ≡ ok (some (frame_of text_header hi, 7 ∷ []))
decode_frame-encode_frame_example =
    decode_frame-encode_frame text_header hi (7 ∷ []) 16 (omega arith) (omega arith) (λ e. cc)

decode_frame-append_example :
    decode_frame ((0x81 ∷ 0x02 ∷ hi) ++ (9 ∷ [])) 16
    ≡ with_more (9 ∷ []) (decode_frame (0x81 ∷ 0x02 ∷ hi) 16)
unfolding decode_frame from_byte
decode_frame-append_example = decode_frame-append (0x81 ∷ 0x02 ∷ hi) (9 ∷ []) 16 (λ e. cc)

decode_frame-IsCutFrom_example : IsCutFrom (0x81 ∷ 0x02 ∷ hi) 16 (frame_of text_header hi) []
unfolding decode_frame from_byte
decode_frame-IsCutFrom_example =
    decode_frame-IsCutFrom (0x81 ∷ 0x02 ∷ hi) 16 (frame_of text_header hi) [] refl

abbrev opening : DecodedFrame
opening = record { fin = false; opcode = Opcode.text; payload = hi }

feed-IsFed_example : IsFed 8 (feed (new 8) opening)
unfolding new
feed-IsFed_example = feed-IsFed (new 8) opening tt

run_frames-fragments_example :
    run_frames (new 8) (fragments Opcode.text hi (hi ∷ (b'!' ∷ []) ∷ []))
    ≡ (new 8, deliver_single 8 Opcode.text (joined hi (hi ∷ (b'!' ∷ []) ∷ [])))
unfolding joined
run_frames-fragments_example =
    run_frames-fragments 8 Opcode.text hi (hi ∷ (b'!' ∷ []) ∷ []) (inl refl) (omega arith)
      (omega arith)

delivers_joined :
    deliver_single 8 Opcode.text (joined hi (hi ∷ [])) ≡ ok (some (EngineFrame.text (hi ++ hi)))
unfolding deliver_single joined is_utf8
delivers_joined = refl

abbrev farewell : EngineFrame
farewell = EngineFrame.close 1000 hi

feed-decode_frame-encode_frame_example :
    (frame : DecodedFrame) × (decode_frame
        (encode_frame (frame_header farewell) (frame_payload farewell) none ++ [])
        64
      ≡ ok (some (frame, [])))
    × (feed (new 64) frame ≡ (new 64, ok (some farewell)))
unfolding new frame_payload is_utf8 validate_outbound_engine_frame close_code_is_valid to_be_bytes
feed-decode_frame-encode_frame_example =
    feed-decode_frame-encode_frame farewell (new 64) [] 64 (omega arith, refl) refl refl
      (omega arith) (omega arith) (omega arith)

abbrev arrivals : List ReadEvent
arrivals = chunk (0x81 ∷ 0x02 ∷ b'h' ∷ []) ∷ not_yet ∷ chunk (b'i' ∷ []) ∷ []

poll_next-IsPolled_example :
    (p : Polled) × (poll_next (new_stream 16 16) arrivals ≡ some p) × IsPolled 16 p
unfolding new_stream
poll_next-IsPolled_example = poll_next-IsPolled 16 (new_stream 16 16) arrivals (refl, tt)

abbrev closed_stream : NativeStream
closed_stream = record {
  buf = hi;
  reassembly = record { max_message_size = 8; in_progress = none };
  max_frame_size = 8;
  done = true;
}

poll_next-done_example :
    poll_next closed_stream arrivals
    ≡ some (record { stream = closed_stream; reads = arrivals; item = ready none })
poll_next-done_example = poll_next-done closed_stream arrivals refl
