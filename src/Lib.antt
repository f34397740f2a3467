-- ===== src/Lib.antt =====
-- openwire is an HTTP client: a request goes through the follow-up loop of the policies, is admitted
-- by the scheduler, takes a connection from the pool or makes one along a plan of routes, and is sent;
-- a WebSocket takes a connection over and speaks frames on it. This library models the parts that
-- decide, and leaves I/O aside.
--
--   * WebSocket (crates/openwire/src/websocket/native and
--     crates/openwire-core/src/websocket): `Codec` has `encode_frame` and `decode_frame` of codec.rs,
--     `Mask` the mask of mask.rs, `Message` and `Error` the messages and their validation, `Session`
--     the `ReassemblyState` of session.rs, `Engine` the `upgrade`, the sink and the stream of
--     engine.rs, `Handshake` the checks of crates/openwire/src/websocket/handshake.rs, and `Writer` the
--     writer, the reader and the heartbeat of writer.rs beside it, with the sender of public.rs and the
--     events of instrumented.rs: one state that moves from wait to wait, in any interleaving of the
--     tasks, each of which runs alone between two waits: a swap of a flag and the event behind it are
--     one step here, so nothing is stated of the order of events of two tasks. The control lane, the data
--     lane and the receiver's lane are bounded, and a task waits where its lane is full. Bytes are natural
--     numbers; the socket is a list of read and write events.
--   * Connection (crates/openwire/src/connection): `Planning` has addresses, routes and
--     route plans of planning.rs, `ConnectPlan` its connect attempts, `Equality` its derived tests,
--     `RealConnection` the state of one connection, `Pool` and the modules below it the pool of
--     pool.rs, `Queue` and `Scheduler` the admission of scheduler.rs, `Limits` the permits for new
--     connections of limits.rs, and `FastFallback` the race of fast_fallback.rs, as a function of the
--     messages of its tasks in the order they arrive.
--   * Policy (crates/openwire/src/policy): `Types` has what is read of errors, `Retry` and `Redirect`
--     the default policies of defaults.rs, `Request` the snapshot of a request and the requests built
--     from it, `Config` the configuration and the questions asked of a response, and `FollowUp` the
--     loop of follow_up.rs.
--   * Proxy (crates/openwire/src/proxy.rs): `Exclusions` has the hosts that a rule leaves out, `Rules` the
--     rules and the selection for a request, and `Candidates` the order of the candidates.
--   * Cache (crates/openwire-cache/src/lib.rs): `Directives` has Cache-Control and what a request asks
--     for, `Vary` the captured request headers, `Freshness` lifetimes and ages, `Entry` the stored
--     response and what a 304 does to it, `Store` the memory store with its limits, `Keys` the keys and
--     the URLs that are invalidated, and `Intercept` the interceptor, over any store.
--   * Text: the functions on text of Rust's standard library that the parts share, on lists of bytes.
--   * Base: the library names in use, Boolean tests, lists measured by native numbers, association
--     lists and results.
--
-- What a mutex guards is one state, and each critical section is one function on it; clones of a
-- connection share one cell of a heap. Instants, durations and wakers are numbers, and time is an
-- argument. Counters of w bits wrap around by `% 2 ^ w` where the source lets them grow.
--
-- Loops that the source does not bound run on fuel. The loop of a call is given by `run`; the fuel
-- that is enough is stated and proved. The stream's loop and the loops that keep the cache within its
-- limits run on a fuel computed from their input.
--
-- Parameters stand for code that is not in the repository: the header map with the laws of its
-- `remove` and `append`, the network, the authenticators, the cookie jar, custom policies, the URL and
-- date parsers, the choice of a slab's keys, and the order of a hash map's keys.
--
-- Not modelled: DNS, TLS, sockets and hyper, the client's builder, the exchange finder, cookies,
-- compression, logging, the key and the request of the WebSocket handshake, the
-- tasks, timers and wake-ups of the runtime, and the adapters to other crates.
pub mod Base
pub mod WebSocket
pub mod Connection
pub mod Policy
pub mod Text
pub mod Cache
pub mod Proxy
