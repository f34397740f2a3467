-- ===== src/WebSocket/Engine/Loopback.antt =====
-- A frame that the sink accepts, on a wire without masks, is the frame that the stream delivers.
use openwire.Base.{
  ℕ, ◌%◌, ◌^◌, ◌≤◌, ◌<◌, ◌≡◌, refl, ap, sym, ◌∙◌, ◌/◌, ◌⊎◌, inl, inr, true, false, ◌&&◌, ◌==◌, List,
  [], ◌∷◌, ◌++◌, none, some, arith, ltb-false, Bool-cases, length, length-append, ok,
}
use openwire.WebSocket.Bytes.{
  is_utf8, to_be_bytes, from_be_bytes, from_be_bytes-to_be_bytes, length-to_be_bytes,
  to_be_bytes-two,
}
use openwire.WebSocket.Codec.{DecodedFrame, encode_frame, decode_frame}
use openwire.WebSocket.Codec.RoundTrip.{frame_of, IsControlSized, decode_frame-encode_frame}
use openwire.WebSocket.Message.{
  EngineFrame, is_empty, close_code_is_valid, validate_outbound_engine_frame,
}
use openwire.WebSocket.Session.{ReassemblyState, parse_close, feed}
use openwire.WebSocket.Engine.{frame_header, frame_payload}

-- What the types of a frame's fields say: a text is valid UTF-8, a close code a 16-bit number.
abbrev pub IsTyped : EngineFrame → Type 0
IsTyped (EngineFrame.text s) = is_utf8 s ≡ true
IsTyped (EngineFrame.binary b) = Unit
IsTyped (EngineFrame.ping b) = Unit
IsTyped (EngineFrame.pong b) = Unit
IsTyped (EngineFrame.close code reason) = (code < 2 ^ 16) × (is_utf8 reason ≡ true)

parse_close-status :
    (code : ℕ) (reason : List ℕ)
    → code < 2 ^ 16
    → close_code_is_valid code ≡ true
    → is_utf8 reason ≡ true
    → parse_close (to_be_bytes 2 code ++ reason) ≡ ok (EngineFrame.close code reason)
unfolding parse_close
parse_close-status code reason h valid text =
    let read : from_be_bytes ((code / 256 % 256) ∷ (code % 256) ∷ []) ≡ code =
      ap from_be_bytes (sym (to_be_bytes-two code))
      ∙ from_be_bytes-to_be_bytes 2 code (omega arith) in
    rw (to_be_bytes-two code, read, valid, text)

-- What the checks on an outbound frame leave of it.
abbrev IsSound : EngineFrame → Type 0
IsSound (EngineFrame.ping b) = length b ≤ 125
IsSound (EngineFrame.pong b) = length b ≤ 125
IsSound (EngineFrame.close code reason) =
    (((code == 1005) && is_empty reason) ≡ true)
    ⊎ ((((code == 1005) && is_empty reason) ≡ false)
        × (close_code_is_valid code ≡ true)
        × (length reason ≤ 123))
IsSound _ = Unit

validate-IsSound : (f : EngineFrame) → validate_outbound_engine_frame f ≡ ok tt → IsSound f
unfolding validate_outbound_engine_frame
validate-IsSound (EngineFrame.text s) h = tt
validate-IsSound (EngineFrame.binary b) h = tt
validate-IsSound (EngineFrame.ping b) h = ground arith
validate-IsSound (EngineFrame.pong b) h = ground arith
validate-IsSound (EngineFrame.close code reason) h =
    elim (Bool-cases ((code == 1005) && is_empty reason)) [
      | inl e ↦ inl e
      | inr e ↦ let h' = rw e at h in inr (e, ground arith, ground arith)
    ]

close_sentinel :
    (code : ℕ) (reason : List ℕ)
    → ((code == 1005) && is_empty reason) ≡ true
    → EngineFrame.close 1005 [] ≡ EngineFrame.close code reason
close_sentinel code [] h = ground arith
close_sentinel code (r ∷ rs) h = ground arith

control_sized : (f : EngineFrame) → IsSound f → IsControlSized (frame_header f) (frame_payload f)
unfolding frame_header frame_payload
control_sized (EngineFrame.text s) h e = cc
control_sized (EngineFrame.binary b) h e = cc
control_sized (EngineFrame.ping b) h e = (refl, h)
control_sized (EngineFrame.pong b) h e = (refl, h)
control_sized (EngineFrame.close code reason) (inl e) _ = (refl, rw e (omega arith))
control_sized (EngineFrame.close code reason) (inr (e, valid, short)) _ = (
  refl,
  rw e (omega (arith, length-append (to_be_bytes 2 code) reason, length-to_be_bytes 2 code)),
)

feed-frame_payload :
    (f : EngineFrame) (s : ReassemblyState)
    → IsTyped f
    → IsSound f
    → s.in_progress ≡ none
    → length (frame_payload f) ≤ s.max_message_size
    → feed s (frame_of (frame_header f) (frame_payload f)) ≡ (s, ok (some f))
unfolding feed frame_header frame_payload
feed-frame_payload (EngineFrame.text t) s typed sound idle fits =
    rw (idle, ltb-false s.max_message_size (length t) fits, typed)
feed-frame_payload (EngineFrame.binary b) s typed sound idle fits =
    rw (idle, ltb-false s.max_message_size (length b) fits)
feed-frame_payload (EngineFrame.ping b) s typed sound idle fits = refl
feed-frame_payload (EngineFrame.pong b) s typed sound idle fits = refl
feed-frame_payload (EngineFrame.close code reason) s typed (inl e) idle fits =
    rw e (ap (λ f. (s, ok (some f))) (close_sentinel code reason e))
feed-frame_payload (EngineFrame.close code reason) s typed (inr (e, valid, short)) idle fits =
    rw (e, parse_close-status code reason typed.0 valid typed.1)

-- A frame that passes the sink's check, with a payload below 2^63 bytes and within max_frame_size and
-- max_message_size, written without a mask, is decoded and delivered as it was by a stream with no
-- message in progress; the bytes behind it and the state stay.
pub feed-decode_frame-encode_frame :
    (f : EngineFrame) (s : ReassemblyState) (rest : List ℕ) (max_frame_size : ℕ)
    → IsTyped f
    → validate_outbound_engine_frame f ≡ ok tt
    → s.in_progress ≡ none
    → length (frame_payload f) < 2 ^ 63
    → length (frame_payload f) ≤ max_frame_size
    → length (frame_payload f) ≤ s.max_message_size
    → (frame : DecodedFrame) × (decode_frame
          (encode_frame (frame_header f) (frame_payload f) none ++ rest)
          max_frame_size
        ≡ ok (some (frame, rest)))
      × (feed s frame ≡ (s, ok (some f)))
feed-decode_frame-encode_frame f s rest max_frame_size typed valid idle real fits small =
    let sound = validate-IsSound f valid in
    (
      frame_of (frame_header f) (frame_payload f),
      decode_frame-encode_frame (frame_header f) (frame_payload f) rest max_frame_size real fits
          (control_sized f sound),
      feed-frame_payload f s typed sound idle small,
    )
