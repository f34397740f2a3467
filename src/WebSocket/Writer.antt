-- ===== src/WebSocket/Writer.antt =====
-- The tasks of a WebSocket session (crates/openwire/src/websocket/writer.rs, instrumented.rs and
-- the sender of public.rs): the writer, the reader and the heartbeat as one state that moves from
-- wait to wait. The code that a task runs between two waits is one step.
pub mod State
pub mod Loop
pub mod Tasks
pub mod Run
pub mod Reports
pub mod Frames
pub mod Stopping
pub mod Examples
