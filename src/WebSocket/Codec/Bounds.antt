-- ===== src/WebSocket/Codec/Bounds.antt =====
-- What every frame that the decoder delivers satisfies, and where its bytes come from.
use openwire.Base.{
  ℕ, ◌%◌, ◌≤◌, ◌≡◌, refl, inl, inr, Bool, true, false, List, [], ◌∷◌, ◌++◌, Option, none, some,
  arith, Bool-cases, Option-cases, length, take, drop, take-append-drop, length-take, ok, err,
  ◌>>=◌, ◌==◌, not, ◌&&◌, ◌/◌, sym,
}
use openwire.WebSocket.Error.{EngineResult}
use openwire.WebSocket.Codec.{
  Opcode, DecodedFrame, from_byte, is_control, frame_length, frame_payload, take_payload,
  decode_from, decode_frame,
}

-- A frame within the limits that the protocol and the configuration set, its payload cut out of
-- the buffer behind the header, and the rest left in order.
pub record IsCutFrom (buf : List ℕ) (max_frame_size : ℕ) (frame : DecodedFrame) (rest : List ℕ)
    : Type 0 where
  pub within : length frame.payload ≤ max_frame_size
  pub whole : is_control frame.opcode ≡ true → frame.fin ≡ true
  pub short : is_control frame.opcode ≡ true → length frame.payload ≤ 125
  pub header : List ℕ
  pub header_short : length header ≤ 10
  pub header_some : 2 ≤ length header
  pub bytes : buf ≡ header ++ (frame.payload ++ rest)

frame_length-bounds :
    (len_field : ℕ) (buf : List ℕ) (max_frame_size head len : ℕ)
    → frame_length len_field buf max_frame_size ≡ ok (some (head, len))
    → (2 ≤ head) × (head ≤ 10)
unfolding frame_length
frame_length-bounds len_field buf max_frame_size head len h = ground arith

take_payload-IsCutFrom :
    (fin : Bool) (opcode : Opcode) (head len : ℕ) (buf : List ℕ) (max_frame_size : ℕ)
    (frame : DecodedFrame) (rest : List ℕ)
    → 2 ≤ head
    → head ≤ 10
    → (is_control opcode && not fin) ≡ false
    → take_payload fin opcode head len buf max_frame_size ≡ ok (some (frame, rest))
    → IsCutFrom buf max_frame_size frame rest
unfolding take_payload
take_payload-IsCutFrom fin opcode head len buf max_frame_size frame rest low high whole h = record {
  within = ground (arith, length-take len (drop head buf));
  whole = ground arith;
  short = ground (arith, length-take len (drop head buf));
  header = take head buf;
  header_short = ground (arith, length-take head buf);
  header_some = ground (arith, length-take head buf);
  bytes =
      let p : frame.payload ≡ take len (drop head buf) = ground arith in
      let r : rest ≡ drop len (drop head buf) = ground arith in
      rw (p, r, take-append-drop len (drop head buf)) (sym (take-append-drop head buf));
}

payload_from-IsCutFrom :
    (fin : Bool) (opcode : Opcode) (len_field : ℕ) (buf : List ℕ) (max_frame_size : ℕ)
    (frame : DecodedFrame) (rest : List ℕ)
    → (is_control opcode && not fin) ≡ false
    → (frame_length len_field buf max_frame_size >>= frame_payload fin opcode buf max_frame_size)
      ≡ ok (some (frame, rest))
    → IsCutFrom buf max_frame_size frame rest
unfolding frame_payload
payload_from-IsCutFrom fin opcode len_field buf max_frame_size frame rest whole h =
    go (frame_length len_field buf max_frame_size) refl h
  where
    go :
        (r : EngineResult (Option (ℕ × ℕ)))
        → frame_length len_field buf max_frame_size ≡ r
        → (r >>= frame_payload fin opcode buf max_frame_size) ≡ ok (some (frame, rest))
        → IsCutFrom buf max_frame_size frame rest
    go (ok none) e h = cc
    go (ok (some (head, len))) e h =
        let (low, high) = frame_length-bounds len_field buf max_frame_size head len e in
        take_payload-IsCutFrom fin opcode head len buf max_frame_size frame rest low high whole h
    go (err x) e h = cc

decode_from-IsCutFrom :
    (b0 b1 : ℕ) (buf : List ℕ) (max_frame_size : ℕ) (frame : DecodedFrame) (rest : List ℕ)
    → decode_from b0 b1 buf max_frame_size ≡ ok (some (frame, rest))
    → IsCutFrom buf max_frame_size frame rest
unfolding decode_from
decode_from-IsCutFrom b0 b1 buf max_frame_size frame rest h = elim (Bool-cases (b0 / 16 % 8 == 0)) [
  | inr e ↦ let h' = rw (e) at h in cc
  | inl e ↦ elim (Option-cases (from_byte b0)) [
    | inl e' ↦ let h' = rw (e, e') at h in cc
    | inr (opcode, e') ↦ elim (Bool-cases (b1 / 128 % 2 == 1)) [
      | inl m ↦ let h' = rw (e, e', m) at h in cc
      | inr m ↦ elim (Bool-cases (is_control opcode && not (b0 / 128 % 2 == 1))) [
        | inl c ↦ let h' = rw (e, e', m, c) at h in cc
        | inr c ↦
            payload_from-IsCutFrom (b0 / 128 % 2 == 1) opcode (b1 % 128) buf max_frame_size frame
              rest c (rw (e, e', m, c) at h)
      ]
    ]
  ]
]

-- Every frame that is decoded fits the limit, is a whole and short one if it is a control frame,
-- and is cut out of the buffer: a header of two to ten bytes, the payload, and the rest.
pub decode_frame-IsCutFrom :
    (buf : List ℕ) (max_frame_size : ℕ) (frame : DecodedFrame) (rest : List ℕ)
    → decode_frame buf max_frame_size ≡ ok (some (frame, rest))
    → IsCutFrom buf max_frame_size frame rest
unfolding decode_frame
decode_frame-IsCutFrom [] max_frame_size frame rest h = cc
decode_frame-IsCutFrom (b0 ∷ []) max_frame_size frame rest h = cc
decode_frame-IsCutFrom (b0 ∷ b1 ∷ bs) max_frame_size frame rest h =
    decode_from-IsCutFrom b0 b1 (b0 ∷ b1 ∷ bs) max_frame_size frame rest h
