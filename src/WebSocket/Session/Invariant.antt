-- ===== src/WebSocket/Session/Invariant.antt =====
-- What holds between frames of the message in progress, and of every message delivered.
use openwire.Base.{
  ℕ, ◌+◌, ◌≤◌, ◌≡◌, refl, ◌⊎◌, inl, inr, Bool, true, false, List, [], ◌∷◌, ◌++◌, Option, none, some,
  arith, ltb, ltb→le, if◌then◌else◌, Bool-cases, length, length-append, is_some, ok, err, ◌>>=◌,
}
use openwire.WebSocket.Bytes.{is_utf8, from_be_bytes}
use openwire.WebSocket.Error.{EngineResult, usize_max}
use openwire.WebSocket.Codec.{Opcode, DecodedFrame, is_control}
use openwire.WebSocket.Message.{EngineFrame, close_code_is_valid}
use openwire.WebSocket.Session.{
  InProgress, ReassemblyState, Fed, deliver, check_message_size, deliver_single, append_fragment,
  append_continuation, start_message, feed_data, parse_close, parse_control, feed,
}

-- A message in progress is a text or a binary one, and within the limit.
abbrev pub IsPartial : ℕ → Option InProgress → Type 0
IsPartial limit none = Unit
IsPartial limit (some part) =
    (length part.buffer ≤ limit) × ((part.opcode ≡ Opcode.text) ⊎ (part.opcode ≡ Opcode.binary))

abbrev pub IsWellFormed : ReassemblyState → Type 0
IsWellFormed s = IsPartial s.max_message_size s.in_progress

-- What the engine may hand on: data within the limit, texts valid, close codes allowed on the wire
-- or the sentinel of an empty close.
abbrev pub IsDeliverable : ℕ → EngineFrame → Type 0
IsDeliverable limit (EngineFrame.text s) = (length s ≤ limit) × (is_utf8 s ≡ true)
IsDeliverable limit (EngineFrame.binary b) = length b ≤ limit
IsDeliverable limit (EngineFrame.ping b) = Unit
IsDeliverable limit (EngineFrame.pong b) = Unit
IsDeliverable limit (EngineFrame.close code reason) =
    ((close_code_is_valid code ≡ true) ⊎ ((code ≡ 1005) × (reason ≡ [])))
    × ((is_utf8 reason ≡ true) ⊎ (reason ≡ []))

abbrev AllDeliverable : ℕ → EngineResult (Option EngineFrame) → Type 0
AllDeliverable limit (ok none) = Unit
AllDeliverable limit (ok (some f)) = IsDeliverable limit f
AllDeliverable limit (err e) = Unit

-- Both at once, for a result of one step.
abbrev pub IsFed : ℕ → Fed → Type 0
IsFed limit (s, r) =
    (s.max_message_size ≡ limit) × IsPartial limit s.in_progress × AllDeliverable limit r

deliver-Deliverable :
    (limit : ℕ) (opcode : Opcode) (payload : List ℕ)
    → length payload ≤ limit
    → AllDeliverable limit (deliver opcode payload)
unfolding deliver
deliver-Deliverable limit Opcode.text payload h = elim (Bool-cases (is_utf8 payload)) [
  | inl e ↦ rw e (h, e)
  | inr e ↦ rw e tt
]
deliver-Deliverable limit Opcode.binary payload h = h
deliver-Deliverable limit _ payload h = tt

deliver_single-Deliverable :
    (limit : ℕ) (opcode : Opcode) (payload : List ℕ)
    → AllDeliverable limit (deliver_single limit opcode payload)
unfolding deliver_single
deliver_single-Deliverable limit opcode payload = elim (Bool-cases (ltb limit (length payload))) [
  | inl e ↦ rw e tt
  | inr e ↦ rw e (deliver-Deliverable limit opcode payload (ltb→le limit (length payload) e))
]

append_fragment-IsFed :
    (s : ReassemblyState) (part : InProgress) (fin : Bool) (payload : List ℕ)
    → IsWellFormed s
    → IsPartial s.max_message_size (some part)
    → IsFed s.max_message_size (append_fragment s part fin payload)
unfolding append_fragment
append_fragment-IsFed s part fin payload w h =
    elim (Bool-cases (ltb s.max_message_size (length part.buffer + length payload))) [
      | inl e ↦ rw (e, append_fragment, check_message_size) (refl, w, tt)
      | inr e ↦ rw (e, append_fragment, check_message_size) (last fin (ltb→le _ _ e))
    ]
  where
    last :
        (b : Bool)
        → length part.buffer + length payload ≤ s.max_message_size
        → IsFed s.max_message_size (
            if b
            then (
              record s { in_progress = none },
              deliver_single s.max_message_size part.opcode (part.buffer ++ payload),
            )
            else (
              record s {
                in_progress =
                    some (record { opcode = part.opcode; buffer = part.buffer ++ payload });
              },
              ok none,
            ))
    last true fits = (
      refl,
      tt,
      deliver_single-Deliverable s.max_message_size part.opcode (part.buffer ++ payload),
    )
    last false fits = (refl, (omega (arith, length-append part.buffer payload), h.1), tt)

append_continuation-IsFed :
    (s : ReassemblyState) (o : Option InProgress) (fin : Bool) (payload : List ℕ)
    → IsWellFormed s
    → IsPartial s.max_message_size o
    → IsFed s.max_message_size (append_continuation s o fin payload)
unfolding append_continuation
append_continuation-IsFed s none fin payload w h = (refl, w, tt)
append_continuation-IsFed s (some part) fin payload w h =
    elim (Bool-cases (ltb usize_max (length part.buffer + length payload))) [
      | inl e ↦ rw e (refl, w, tt)
      | inr e ↦ rw e (append_fragment-IsFed s part fin payload w h)
    ]

start_message-IsFed :
    (s : ReassemblyState) (fin : Bool) (opcode : Opcode) (payload : List ℕ)
    → IsWellFormed s
    → (opcode ≡ Opcode.text) ⊎ (opcode ≡ Opcode.binary)
    → IsFed s.max_message_size (start_message s fin opcode payload)
unfolding start_message
start_message-IsFed s true opcode payload w h =
    (refl, w, deliver_single-Deliverable s.max_message_size opcode payload)
start_message-IsFed s false opcode payload w h =
    elim (Bool-cases (ltb s.max_message_size (length payload))) [
      | inl e ↦ rw e (refl, w, tt)
      | inr e ↦ rw e (refl, (ltb→le _ _ e, h), tt)
    ]

feed_data-IsFed :
    (s : ReassemblyState) (fin : Bool) (opcode : Opcode) (payload : List ℕ) (busy : Bool)
    → IsWellFormed s
    → IsFed s.max_message_size (feed_data s fin opcode payload busy)
unfolding feed_data
feed_data-IsFed s fin Opcode.continuation payload false w = (refl, w, tt)
feed_data-IsFed s fin Opcode.continuation payload true w =
    append_continuation-IsFed s s.in_progress fin payload w w
feed_data-IsFed s fin Opcode.text payload false w =
    start_message-IsFed s fin Opcode.text payload w (inl refl)
feed_data-IsFed s fin Opcode.binary payload false w =
    start_message-IsFed s fin Opcode.binary payload w (inr refl)
feed_data-IsFed s fin Opcode.text payload true w = (refl, w, tt)
feed_data-IsFed s fin Opcode.binary payload true w = (refl, w, tt)
feed_data-IsFed s fin _ payload _ w = (refl, w, tt)

abbrev CloseDeliverable : ℕ → EngineResult EngineFrame → Type 0
CloseDeliverable limit (ok f) = IsDeliverable limit f
CloseDeliverable limit (err e) = Unit

parse_close-Deliverable :
    (limit : ℕ) (payload : List ℕ) → CloseDeliverable limit (parse_close payload)
unfolding parse_close
parse_close-Deliverable limit [] = (inr (refl, refl), inr refl)
parse_close-Deliverable limit (b ∷ []) = tt
parse_close-Deliverable limit (b0 ∷ b1 ∷ reason) =
    elim (Bool-cases (close_code_is_valid (from_be_bytes (b0 ∷ b1 ∷ [])))) [
      | inr e ↦ rw e tt
      | inl e ↦ elim (Bool-cases (is_utf8 reason)) [
        | inl e' ↦ rw (e, e') (inl e, inl e')
        | inr e' ↦ rw (e, e') tt
      ]
    ]

parse_control-Deliverable :
    (limit : ℕ) (opcode : Opcode) (payload : List ℕ)
    → CloseDeliverable limit (parse_control opcode payload)
unfolding parse_control
parse_control-Deliverable limit Opcode.ping payload = tt
parse_control-Deliverable limit Opcode.pong payload = tt
parse_control-Deliverable limit Opcode.close payload = parse_close-Deliverable limit payload
parse_control-Deliverable limit _ payload = tt

some_of-Deliverable :
    (limit : ℕ) (r : EngineResult EngineFrame)
    → CloseDeliverable limit r
    → AllDeliverable limit (r >>= λ f. ok (some f))
some_of-Deliverable limit (ok f) h = h
some_of-Deliverable limit (err e) h = tt

-- A frame fed to a well-formed state leaves one, with the limit unchanged. A data message that it
-- delivers is within the limit, a text is valid UTF-8, and a close has a valid reason and a code
-- allowed on the wire, or is the sentinel 1005 with no reason; of a ping and a pong nothing is said.
pub feed-IsFed :
    (s : ReassemblyState) (frame : DecodedFrame)
    → IsWellFormed s
    → IsFed s.max_message_size (feed s frame)
unfolding feed
feed-IsFed s frame w = elim (Bool-cases (is_control frame.opcode)) [
  | inl e ↦ rw e (
    refl,
    w,
    some_of-Deliverable s.max_message_size (parse_control frame.opcode frame.payload)
        (parse_control-Deliverable s.max_message_size frame.opcode frame.payload),
  )
  | inr e ↦ rw e (feed_data-IsFed s frame.fin frame.opcode frame.payload (is_some s.in_progress) w)
]

-- Control frames go through between the fragments of a message and leave it as it is.
pub feed-control :
    (s : ReassemblyState) (frame : DecodedFrame)
    → is_control frame.opcode ≡ true
    → feed s frame ≡ (s, parse_control frame.opcode frame.payload >>= λ f. ok (some f))
unfolding feed
feed-control s frame h = rw h
