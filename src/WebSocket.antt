-- ===== src/WebSocket.antt =====
-- The native WebSocket engine: masking, the frame codec, message validation, reassembly of
-- fragmented messages, and the sink and stream over the transport
-- (crates/openwire/src/websocket/native and crates/openwire-core/src/websocket).
pub mod Bytes
pub mod Mask
pub mod Error
pub mod Codec
pub mod Message
pub mod Session
pub mod Engine
pub mod Handshake
pub mod Writer
pub mod Examples
