-- ===== src/WebSocket/Codec/HeaderBytes.antt =====
-- The bytes that `encode_frame` writes, and how their length is read.
use openwire.Base.{
  ℕ, ◌+◌, ◌-◌, ◌/◌, ◌%◌, ◌^◌, ◌≤◌, ◌<◌, ◌≡◌, refl, sym, ap, ap₂, ◌∙◌, inl, inr, Bool, true, false,
  List, [], ◌∷◌, ◌++◌, Option, some, bit_or, arith, leb, ◌==◌, ==_iff, leb→le, leb→lt, ltb-false,
  if◌then◌else◌, length, take, length-append, take-append_length, is_some, ok, every_below,
  every_below_sound, Bool-cases,
}
use openwire.WebSocket.Bytes.{
  to_be_bytes, from_be_bytes, length-to_be_bytes, from_be_bytes-to_be_bytes,
}
use openwire.WebSocket.Error.{u16_max}
use openwire.WebSocket.Codec.{
  Opcode, continuation, text, binary, close, ping, pong, opcode_byte, from_byte, FrameHeader,
  encode_length, encode_payload, encode_frame, frame_length,
}

or_table : every_below 128 (λ n. (bit_or 0 n == n)) ≡ true
unfolding every_below
or_table = refl

or_mask_table : every_below 128 (λ n. (bit_or 128 n == 128 + n)) ≡ true
unfolding every_below
or_mask_table = refl

abbrev mask_bit : Bool → ℕ
mask_bit masked = if masked then 0x80 else 0x00

bit_or-mask_bit :
    (masked : Bool) (n : ℕ) → n < 128 → bit_or (mask_bit masked) n ≡ mask_bit masked + n
bit_or-mask_bit false n h = (==_iff _ n).0 (every_below_sound 128 _ n h or_table) ∙ omega arith
bit_or-mask_bit true n h = (==_iff _ (128 + n)).0 (every_below_sound 128 _ n h or_mask_table)

abbrev pub first_byte : Bool → Opcode → ℕ
first_byte fin opcode = bit_or (if fin then 0x80 else 0x00) (opcode_byte opcode)

pub first_byte_fields :
    (fin : Bool) (opcode : Opcode)
    → ((first_byte fin opcode / 16 % 8 == 0) ≡ true)
      × (from_byte (first_byte fin opcode) ≡ some opcode)
      × ((first_byte fin opcode / 128 % 2 == 1) ≡ fin)
unfolding from_byte
first_byte_fields true continuation = (refl, refl, refl)
first_byte_fields true text = (refl, refl, refl)
first_byte_fields true binary = (refl, refl, refl)
first_byte_fields true close = (refl, refl, refl)
first_byte_fields true ping = (refl, refl, refl)
first_byte_fields true pong = (refl, refl, refl)
first_byte_fields false continuation = (refl, refl, refl)
first_byte_fields false text = (refl, refl, refl)
first_byte_fields false binary = (refl, refl, refl)
first_byte_fields false close = (refl, refl, refl)
first_byte_fields false ping = (refl, refl, refl)
first_byte_fields false pong = (refl, refl, refl)

-- The three forms of the length field.
abbrev pub length_field : ℕ → ℕ
length_field len = if leb len 125 then len else if leb len u16_max then 126 else 127

abbrev extended_length : ℕ → List ℕ
extended_length len =
    if leb len 125 then [] else if leb len u16_max then to_be_bytes 2 len else to_be_bytes 8 len

abbrev head_length : ℕ → ℕ
head_length len = if leb len 125 then 2 else if leb len u16_max then 4 else 10

encode_length_lem :
    (masked : Bool) (len : ℕ)
    → len < 2 ^ 63
    → encode_length (mask_bit masked) len
      ≡ (mask_bit masked + length_field len) ∷ extended_length len
unfolding encode_length
encode_length_lem masked len h = elim (Bool-cases (leb len 125)) [
  | inl e ↦ rw e (
      ap (λ n. n ∷ [])
        (bit_or-mask_bit masked (len % 256) (omega (arith, leb→le len 125 e))
          ∙ ap (◌+◌ (mask_bit masked)) (omega (arith, leb→le len 125 e))))
  | inr e ↦ elim (Bool-cases (leb len u16_max)) [
    | inl e' ↦
        rw (e, e')
          (ap₂ (λ b n. b ∷ to_be_bytes 2 n) (bit_or-mask_bit masked 126 (omega arith))
            (omega (arith, leb→le len u16_max e')))
    | inr e' ↦
        rw (e, e')
          (ap₂ (λ b n. b ∷ to_be_bytes 8 n) (bit_or-mask_bit masked 127 (omega arith))
            (omega arith))
  ]
]

abbrev pub header_bytes : FrameHeader → Bool → ℕ → List ℕ
header_bytes header masked len =
    first_byte header.fin header.opcode ∷ (mask_bit masked + length_field len) ∷ extended_length len

-- The bytes of a frame: two bytes and the extended length, and the payload behind them, under its
-- key where there is one.
pub encode_frame_bytes :
    (header : FrameHeader) (payload : List ℕ) (mask : Option (List ℕ))
    → length payload < 2 ^ 63
    → encode_frame header payload mask
      ≡ header_bytes header (is_some mask) (length payload) ++ encode_payload payload mask
unfolding encode_frame
encode_frame_bytes header payload mask h = rw (encode_length_lem (is_some mask) (length payload) h)

pub length_field-lt : (len : ℕ) → length_field len < 128
length_field-lt len = ground arith

pub length-header_bytes :
    (header : FrameHeader) (masked : Bool) (len : ℕ)
    → length (header_bytes header masked len) ≡ head_length len
length-header_bytes header masked len =
    ground (arith, length-to_be_bytes 2 len, length-to_be_bytes 8 len)

extended_length-mid :
    (b0 b1 len : ℕ) (more : List ℕ)
    → len ≤ u16_max
    → from_be_bytes (take 2 (to_be_bytes 2 len ++ more)) ≡ len
extended_length-mid b0 b1 len more h =
    rw (take-append_length 2 (to_be_bytes 2 len) more (sym (length-to_be_bytes 2 len)))
      (from_be_bytes-to_be_bytes 2 len (omega arith))

extended_length-long :
    (len : ℕ) (more : List ℕ)
    → len < 2 ^ 63
    → from_be_bytes (take 8 (to_be_bytes 8 len ++ more)) ≡ len
extended_length-long len more h =
    rw (take-append_length 8 (to_be_bytes 8 len) more (sym (length-to_be_bytes 8 len)))
      (from_be_bytes-to_be_bytes 8 len (omega arith))

pub frame_length-extended_length :
    (b0 b1 len max_frame_size : ℕ) (more : List ℕ)
    → len < 2 ^ 63
    → frame_length (length_field len) (b0 ∷ b1 ∷ (extended_length len ++ more)) max_frame_size
      ≡ ok (some (head_length len, len))
unfolding frame_length
frame_length-extended_length b0 b1 len max_frame_size more h = elim (Bool-cases (leb len 125)) [
  | inl e ↦ rw (e, e)
  | inr e ↦ elim (Bool-cases (leb len u16_max)) [
    | inl e' ↦ rw (
      e,
      e',
      extended_length-mid b0 b1 len more (leb→le len u16_max e'),
      e,
      ltb-false (length (b0 ∷ b1 ∷ (to_be_bytes 2 len ++ more))) 4
          (omega (arith, length-append (to_be_bytes 2 len) more, length-to_be_bytes 2 len)),
    )
    | inr e' ↦
        let big : u16_max < len = leb→lt len u16_max e' in
        rw
          (
            e,
            e',
            extended_length-long len more h,
            e',
            ltb-false (length (b0 ∷ b1 ∷ (to_be_bytes 8 len ++ more))) 10
                (omega (arith, length-append (to_be_bytes 8 len) more, length-to_be_bytes 8 len)),
            ltb-false (2 ^ 64 - 1) len (omega arith),
          )
          (ground arith)
  ]
]
