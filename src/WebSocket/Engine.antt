-- ===== src/WebSocket/Engine.antt =====
-- crates/openwire/src/websocket/native/engine.rs: the upgrade's checks, the sink that writes frames
-- and the stream that reads them. The transport is a list of what its polls answer; the random key
-- is what the draw gives. The capacity that buffers are made with is left out.
pub mod Loopback
pub mod Stream
use Prim.Native.Char.{code}
use Prim.Native.String.{String}
use openwire.Base.{
  ℕ, zero, suc, ◌+◌, ◌≡◌, Bool, true, false, ◌&&◌, List, [], ◌∷◌, ◌++◌, Option, none, some, ◌==◌,
  if◌then◌else◌, any, length, not, drop, ok, err, ◌>>=◌, ◌>>◌,
}
use openwire.Text.{codes}
use openwire.WebSocket.Bytes.{to_be_bytes}
use openwire.WebSocket.Error.{
  EngineResult, WebSocketEngineError, invalid_frame, unsupported_extension, io,
}
use openwire.WebSocket.Codec.{Opcode, FrameHeader, DecodedFrame, encode_frame, decode_frame}
use openwire.WebSocket.Message.{EngineFrame, is_empty, validate_outbound_engine_frame}
use openwire.WebSocket.Session.{ReassemblyState, new, feed, end_of_stream}

pub data Role : Type 0 where
  client server : Role

pub record WebSocketEngineConfig : Type 0 where
  pub role : Role
  pub extensions : List (List ℕ)
  pub max_frame_size : ℕ
  pub max_message_size : ℕ

-- `extensions.join(", ")`.
unfoldable pub join : List (List ℕ) → List ℕ
join [] = []
join (x ∷ []) = x
join (x ∷ y ∷ xs) = x ++ (b',' ∷ b' ' ∷ join (y ∷ xs))

check_role : Role → EngineResult (Unit {0})
check_role client = ok tt
check_role server =
    err (unsupported_extension (codes "native engine only supports client role in v1"))

check_extensions : List (List ℕ) → EngineResult (Unit {0})
check_extensions extensions =
    if any (λ extension. not (is_empty extension)) extensions
    then err (unsupported_extension (join extensions))
    else ok tt

pub record NativeStream : Type 0 where
  pub buf : List ℕ
  pub reassembly : ReassemblyState
  pub max_frame_size : ℕ
  pub done : Bool

-- `NativeStream::new`.
unfoldable pub new_stream : ℕ → ℕ → NativeStream
unfolding new
new_stream max_frame_size max_message_size = record {
  buf = [];
  reassembly = new max_message_size;
  max_frame_size = max_frame_size;
  done = false;
}

-- `NativeEngine::upgrade`: the stream that it makes, behind the checks on the configuration.
unfoldable pub upgrade : WebSocketEngineConfig → EngineResult NativeStream
unfolding check_role check_extensions new_stream
upgrade config = do
  check_role config.role
  check_extensions config.extensions
  ok (new_stream config.max_frame_size config.max_message_size)

unfoldable pub frame_header : EngineFrame → FrameHeader
frame_header (EngineFrame.text s) = record { fin = true; opcode = Opcode.text }
frame_header (EngineFrame.binary b) = record { fin = true; opcode = Opcode.binary }
frame_header (EngineFrame.ping b) = record { fin = true; opcode = Opcode.ping }
frame_header (EngineFrame.pong b) = record { fin = true; opcode = Opcode.pong }
frame_header (EngineFrame.close code reason) = record { fin = true; opcode = Opcode.close }

unfoldable pub frame_payload : EngineFrame → List ℕ
frame_payload (EngineFrame.text s) = s
frame_payload (EngineFrame.binary b) = b
frame_payload (EngineFrame.ping b) = b
frame_payload (EngineFrame.pong b) = b
frame_payload (EngineFrame.close code reason) =
    if code == 1005 && is_empty reason then [] else to_be_bytes 2 code ++ reason

-- The sink's buffer with the frame behind it.
unfoldable pub start_send : List ℕ → EngineFrame → EngineResult (List ℕ) → EngineResult (List ℕ)
start_send buf item random_mask_key = do
  validate_outbound_engine_frame item
  key ← random_mask_key
  ok (buf ++ encode_frame (frame_header item) (frame_payload item) (some key))

-- What `poll_write` answers: not yet, a number of bytes taken, or an error.
pub data WriteEvent : Type 0 where
  blocked : WriteEvent
  wrote : ℕ → WriteEvent
  write_failed : WriteEvent

pub data Poll (A : Type 0) : Type 0 where
  pending : Poll A
  ready : A → Poll A

-- `drain`, with the answers of the transport's `poll_write` as a list (`blocked` behind its end)
-- and then that of `poll_flush`: the bytes that stay in the buffer, and the result.
unfoldable pub drain :
    List ℕ
    → List WriteEvent
    → Poll (EngineResult (Unit {0}))
    → List ℕ × Poll (EngineResult (Unit {0}))
drain [] events flush = ([], flush)
drain (b ∷ bs) [] flush = (b ∷ bs, pending)
drain (b ∷ bs) (blocked ∷ events) flush = (b ∷ bs, pending)
drain (b ∷ bs) (wrote zero ∷ events) flush =
    (b ∷ bs, ready (err (io "websocket peer closed write half")))
drain (b ∷ bs) (wrote (suc n) ∷ events) flush = drain (drop n bs) events flush
drain (b ∷ bs) (write_failed ∷ events) flush = (b ∷ bs, ready (err (io "websocket write failed")))

-- What `poll_read` answers: not yet, bytes (none at the end of the stream), or an error.
pub data ReadEvent : Type 0 where
  not_yet : ReadEvent
  chunk : List ℕ → ReadEvent
  read_failed : ReadEvent

-- What a poll of the stream leaves: the stream, the answers not used, and what it returns.
pub record Polled : Type 0 where
  pub stream : NativeStream
  pub reads : List ReadEvent
  pub item : Poll (Option (EngineResult EngineFrame))

finish : NativeStream → List ReadEvent → Option (EngineResult EngineFrame) → Polled
finish me reads item = record {
  stream = record me { done = true };
  reads = reads;
  item = ready item;
}

-- The end of the stream: a cut frame or message is an error.
at_eof : NativeStream → List ReadEvent → Polled
unfolding finish
at_eof me reads =
    if not (is_empty me.buf)
    then finish me reads (some (err (invalid_frame "truncated websocket frame")))
    else elim (end_of_stream me.reassembly) [
      | err e ↦ finish me reads (some (err e))
      | ok _ ↦ finish me reads none
    ]

-- `poll_fill`, and what `poll_next` does with it; `continue` goes on with the loop.
fill :
    NativeStream → List ReadEvent → (NativeStream → List ReadEvent → Option Polled) → Option Polled
unfolding at_eof finish
fill me [] continue = some (record { stream = me; reads = []; item = pending })
fill me (not_yet ∷ reads) continue = some (record { stream = me; reads = reads; item = pending })
fill me (chunk [] ∷ reads) continue = some (at_eof me reads)
fill me (chunk (b ∷ bs) ∷ reads) continue = continue (record me { buf = me.buf ++ (b ∷ bs) }) reads
fill me (read_failed ∷ reads) continue =
    some (finish me reads (some (err (io "websocket read failed"))))

is_close : Opcode → Bool
is_close Opcode.close = true
is_close _ = false

-- A decoded frame goes through the reassembly.
deliver_frame :
    NativeStream
    → List ReadEvent
    → DecodedFrame
    → ReassemblyState × EngineResult (Option EngineFrame)
    → (NativeStream → List ReadEvent → Option Polled)
    → Option Polled
unfolding finish is_close
deliver_frame me reads frame (s, err e) continue =
    some (finish (record me { reassembly = s }) reads (some (err e)))
deliver_frame me reads frame (s, ok none) continue = continue (record me { reassembly = s }) reads
deliver_frame me reads frame (s, ok (some f)) continue = some (record {
  stream = record me { reassembly = s; done = is_close frame.opcode };
  reads = reads;
  item = ready (some (ok f));
})

-- One round of the loop of `poll_next`.
next_round :
    NativeStream
    → List ReadEvent
    → EngineResult (Option (DecodedFrame × List ℕ))
    → (NativeStream → List ReadEvent → Option Polled)
    → Option Polled
unfolding finish deliver_frame fill
next_round me reads (err e) continue = some (finish me reads (some (err e)))
next_round me reads (ok (some (frame, rest))) continue =
    deliver_frame (record me { buf = rest }) reads frame (feed me.reassembly frame) continue
next_round me reads (ok none) continue = fill me reads continue

-- The loop on fuel; `none` means that the fuel ran out.
unfoldable pub poll_loop : ℕ → NativeStream → List ReadEvent → Option Polled
unfolding next_round
poll_loop zero me reads = none
poll_loop (suc fuel) me reads =
    let go =
      next_round me reads (decode_frame me.buf me.max_frame_size) (λ t r. poll_loop fuel t r) in
    elim me.done [
      | true ↦ some (record { stream = me; reads = reads; item = ready none })
      | false ↦ go
    ]

-- The bytes that are there or may still come, and the answers of the transport, bound the rounds.
unfoldable pub size_of_reads : List ReadEvent → ℕ
size_of_reads [] = 0
size_of_reads (chunk bs ∷ reads) = length bs + 1 + size_of_reads reads
size_of_reads (_ ∷ reads) = 1 + size_of_reads reads

unfoldable pub poll_next : NativeStream → List ReadEvent → Option Polled
unfolding poll_loop size_of_reads
poll_next me reads = poll_loop (length me.buf + size_of_reads reads + 1) me reads
