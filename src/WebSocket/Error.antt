-- ===== src/WebSocket/Error.antt =====
-- `WebSocketEngineError` (crates/openwire-core/src/websocket/error.rs). A message is the text that
-- the source writes, or the bytes of one that it puts together; of a `WireError` inside `Io` its message is kept.
use Prim.Native.String.{String}
use openwire.Base.{ℕ, ◌-◌, ◌^◌, Bool, true, false, Result, ok, err, Option, none, some, List}

pub data WebSocketEngineError : Type 0 where
  invalid_frame : String → WebSocketEngineError
  invalid_utf8 : WebSocketEngineError
  invalid_close_code : ℕ → WebSocketEngineError
  payload_too_large : ℕ → ℕ → WebSocketEngineError
  unsupported_extension : List ℕ → WebSocketEngineError
  io : String → WebSocketEngineError

abbrev pub EngineResult : Type 0 → Type 0
EngineResult A = Result WebSocketEngineError A

-- `usize::MAX`, on a 64-bit target.
abbrev pub usize_max : ℕ
usize_max = 2 ^ 64 - 1

abbrev pub u16_max : ℕ
u16_max = 65535

-- `if test { return Err(InvalidFrame(message)) }`.
abbrev pub refuse_if : Bool → String → EngineResult (Unit {0})
refuse_if true message = err (invalid_frame message)
refuse_if false message = ok tt

abbrev pub ok_or : {A : Type 0} → Option A → WebSocketEngineError → EngineResult A
ok_or none e = err e
ok_or (some a) e = ok a
