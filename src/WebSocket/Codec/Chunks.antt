-- ===== src/WebSocket/Codec/Chunks.antt =====
-- The decoder and the arrival of bytes: what it decided on a buffer stands when more bytes come.
use openwire.Base.{
  ℕ, ◌+◌, ◌%◌, ◌≤◌, ◌≡◌, ◌≢◌, refl, inl, inr, Bool, List, [], ◌∷◌, ◌++◌, Option, none, some, arith,
  ltb, ltb→le, ltb-false, Bool-cases, Option-cases, length, length-append, take, drop,
  take-append_le, drop-append_le, length-drop, ok, err, ◌>>=◌, ◌==◌, not, ◌&&◌, ◌/◌,
}
use openwire.WebSocket.Error.{EngineResult}
use openwire.WebSocket.Codec.{
  Opcode, DecodedFrame, from_byte, is_control, frame_length, frame_payload, take_payload,
  decode_from, decode_frame,
}

-- The answer with bytes added behind what is left.
abbrev pub with_more :
    List ℕ
    → EngineResult (Option (DecodedFrame × List ℕ))
    → EngineResult (Option (DecodedFrame × List ℕ))
with_more more (ok none) = ok none
with_more more (ok (some (frame, rest))) = ok (some (frame, rest ++ more))
with_more more (err e) = err e

slice-append :
    {A : Type 0} (n k : ℕ) (xs ys : List A)
    → n + k ≤ length xs
    → take k (drop n (xs ++ ys)) ≡ take k (drop n xs)
slice-append n k xs ys h =
    rw (drop-append_le n xs ys (omega arith))
      (take-append_le k (drop n xs) ys (omega (arith, length-drop n xs)))

frame_length-append :
    (len_field : ℕ) (buf more : List ℕ) (max_frame_size : ℕ)
    → frame_length len_field buf max_frame_size ≢ ok none
    → frame_length len_field (buf ++ more) max_frame_size
      ≡ frame_length len_field buf max_frame_size
unfolding frame_length
frame_length-append len_field buf more max_frame_size h =
    ground (arith, length-append buf more, slice-append 2 2 buf more, slice-append 2 8 buf more)

take_payload-append_more :
    (fin : Bool) (opcode : Opcode) (head_len len : ℕ) (buf more : List ℕ) (max_frame_size : ℕ)
    → take_payload fin opcode head_len len buf max_frame_size ≢ ok none
    → take_payload fin opcode head_len len (buf ++ more) max_frame_size
      ≡ with_more more (take_payload fin opcode head_len len buf max_frame_size)
unfolding take_payload
take_payload-append_more fin opcode head_len len buf more max_frame_size h =
    elim (Bool-cases (ltb (length buf) (head_len + len))) [
      | inl short ↦ ground (arith, length-append buf more)
      | inr enough ↦
          let fits : head_len + len ≤ length buf = ltb→le _ _ enough in
          rw
            (
              ltb-false (length (buf ++ more)) (head_len + len)
                  (omega (arith, length-append buf more)),
              drop-append_le head_len buf more (omega arith),
              take-append_le len (drop head_len buf) more (omega (arith, length-drop head_len buf)),
              drop-append_le len (drop head_len buf) more (omega (arith, length-drop head_len buf)),
              enough,
            )
            (ground arith)
    ]

-- What follows the checks on the two first bytes.
abbrev payload_from : Bool → Opcode → ℕ → List ℕ → ℕ → EngineResult (Option (DecodedFrame × List ℕ))
payload_from fin opcode len_field buf max_frame_size =
    frame_length len_field buf max_frame_size >>= frame_payload fin opcode buf max_frame_size

payload_from-append :
    (fin : Bool) (opcode : Opcode) (len_field : ℕ) (buf more : List ℕ) (max_frame_size : ℕ)
    → payload_from fin opcode len_field buf max_frame_size ≢ ok none
    → payload_from fin opcode len_field (buf ++ more) max_frame_size
      ≡ with_more more (payload_from fin opcode len_field buf max_frame_size)
unfolding frame_payload
payload_from-append fin opcode len_field buf more max_frame_size h =
    go (frame_length len_field buf max_frame_size) refl
  where
    go :
        (r : EngineResult (Option (ℕ × ℕ)))
        → frame_length len_field buf max_frame_size ≡ r
        → payload_from fin opcode len_field (buf ++ more) max_frame_size
          ≡ with_more more (payload_from fin opcode len_field buf max_frame_size)
    go (ok none) e = absurd (h (rw e))
    go (ok (some (header_len, len))) e =
        rw (frame_length-append len_field buf more max_frame_size (λ e'. cc), e)
          (take_payload-append_more fin opcode header_len len buf more max_frame_size
            (λ e'. h (rw e e')))
    go (err x) e = rw (frame_length-append len_field buf more max_frame_size (λ e'. cc), e)

decode_from-append :
    (b0 b1 : ℕ) (buf more : List ℕ) (max_frame_size : ℕ)
    → decode_from b0 b1 buf max_frame_size ≢ ok none
    → decode_from b0 b1 (buf ++ more) max_frame_size
      ≡ with_more more (decode_from b0 b1 buf max_frame_size)
unfolding decode_from
decode_from-append b0 b1 buf more max_frame_size h = elim (Bool-cases (b0 / 16 % 8 == 0)) [
  | inr e ↦ rw e
  | inl e ↦ elim (Option-cases (from_byte b0)) [
    | inl e' ↦ rw (e, e')
    | inr (opcode, e') ↦ elim (Bool-cases (b1 / 128 % 2 == 1)) [
      | inl m ↦ rw (e, e', m)
      | inr m ↦ elim (Bool-cases (is_control opcode && not (b0 / 128 % 2 == 1))) [
        | inl c ↦ rw (e, e', m, c)
        | inr c ↦
            rw (e, e', m, c)
              (payload_from-append (b0 / 128 % 2 == 1) opcode (b1 % 128) buf more max_frame_size
                (λ e''. h (rw (e, e', m, c) e'')))
      ]
    ]
  ]
]

-- A frame, or an error, does not depend on what arrives later: the bytes behind the frame stay in
-- the buffer, before what is added.
pub decode_frame-append :
    (buf more : List ℕ) (max_frame_size : ℕ)
    → decode_frame buf max_frame_size ≢ ok none
    → decode_frame (buf ++ more) max_frame_size ≡ with_more more (decode_frame buf max_frame_size)
unfolding decode_frame
decode_frame-append [] more max_frame_size h = absurd (h refl)
decode_frame-append (b0 ∷ []) more max_frame_size h = absurd (h refl)
decode_frame-append (b0 ∷ b1 ∷ rest) more max_frame_size h =
    decode_from-append b0 b1 (b0 ∷ b1 ∷ rest) more max_frame_size h
