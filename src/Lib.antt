-- ===== src/Lib.antt =====
-- capnp-deno: Cap'n Proto RPC for Deno. This library models the part of it that handles bytes
-- and connections without the platform.
--
-- The parts and how they interact. Bytes arrive from a transport in chunks of any size. The
-- framer (src/rpc/wire/framer.ts) collects them in a buffer and hands on one frame at a time,
-- whose length it reads from the segment table; the limits and the walk over the pointers of a
-- frame are src/rpc/wire/frame_limits.ts. A frame is taken apart into segments, words and struct
-- fields by src/rpc/wire/segments.ts, and its pointers are resolved, decoded and rebased by
-- src/rpc/wire/pointers.ts. The RPC messages in a frame are written by src/rpc/wire/encode.ts, with
-- a builder of one segment, and read by src/rpc/wire/decode.ts; src/rpc/wire/router.ts gives each
-- message to its handler. On the way out a transport keeps the frames that it has not
-- sent yet in an outbound queue (src/rpc/transports/internal/transport_internal.ts), with limits
-- on their number and bytes; a close signal of the same file tells observers of its end. The
-- connection itself is made through a circuit breaker
-- (src/rpc/transports/resilience/circuit_breaker.ts), or by a loop that retries
-- (src/rpc/transports/resilience/reconnect.ts), and connections that are kept for reuse are in a
-- pool (src/rpc/transports/resilience/connection_pool.ts). A test harness of a session waits for its frames
-- at a frame queue (src/rpc/session/harness_frame_queue.ts).
--
-- Which file models which part:
--   Base                    lists, bytes, results of code that throws, signed integers
--   Wire/Errors             the ProtocolErrors, one constructor for each kind of message
--   Wire/PointerWord        the bit fields of a pointer word, which two files read inline
--   Wire/FrameLimits        frame_limits.ts, the options and parseFrame
--   Wire/FrameLimits/Walk   frame_limits.ts, resolvePointer, enforceNestingDepth (walk, walk_step,
--                           visit) and validateCapnpFrame
--   Wire/Framer             framer.ts, CapnpFrameFramer: push, popFrame (pop_frame, take_frame,
--                           consume), updateExpectedTotal (update_expected_total, read_table,
--                           sum_table); and the read loop of src/rpc/transports/tcp.ts (read_loop,
--                           drain), its client
--   Wire/Segments           segments.ts, all of it: ensureRange to encodeSigned30, in snake case
--   Wire/Pointers           pointers.ts, resolvePointer to decodeStructListPointer and
--                           readTextFromPointer; not the deep copy
--   Wire/Builder            encode.ts, RpcWireMessageBuilder
--   Wire/Codec/Layout       the constants of src/rpc/gen/capnp/rpc_wire_constants.ts
--   Wire/Codec/Encode       encode.ts, the messages without a payload
--   Wire/Codec/Decode       decode.ts, the message tag and the messages without a payload
--   Wire/Codec/Targets      encode.ts and decode.ts, call targets (encode_call_target is in Messages)
--   Wire/Codec/Caps         encode.ts and decode.ts, capability tables
--   Wire/Codec/Messages     encode.ts and decode.ts, calls and returns; the constructor of
--                           MessageReader in src/encoding/runtime_message.ts (message_reader)
--   Wire/Router             router.ts, decodeRpcMessage, dispatchRpcMessage and
--                           extractBootstrapCapabilityIndex
--   Transport/CircuitBreaker  circuit_breaker.ts, all operations of CircuitBreaker
--   Transport/OutboundQueue   transport_internal.ts, OutboundFrameQueue
--   Transport/CloseSignal     transport_internal.ts, TransportCloseSignal
--   Transport/Reconnect       src/rpc/transports/resilience/reconnect.ts,
--                           connectWithReconnect (connect_with_reconnect, take_turn,
--                           after_failure, pause) and the policy's shouldRetry
--   Transport/Pool            src/rpc/transports/resilience/connection_pool.ts,
--                           RpcConnectionPool: acquire (acquire, acquire_loop, acquire_idle,
--                           acquire_new, and health_checked after the check), release, evictIdle,
--                           close (begin_close, do_close) and the private methods
--   Transport/Pool/Drain      the same file: the attempts to connect for waiting acquires
--                           (drain_turn, drain_connected, drain_failed), of aborted acquires
--                           (abandoned_connected) and of the warm-up (warmup_connected)
--   Transport/Pool/Steps      the turns of the event loop around the pool, with a record of what was
--                           given to acquires and taken back
--   Session/FrameQueue        src/rpc/session/harness_frame_queue.ts, HarnessFrameQueue
-- The child modules hold the proofs, named for what they prove, and Tests the runs at concrete
-- inputs.
--
-- How the code is translated. A Uint8Array is a list of numbers; what a DataView reads is
-- computed from the list, and a shared buffer is copied where the code copies it. A word is a
-- number below 2^64 with its fields taken by division and remainder. Numbers are natural where
-- the code has checked that they are not negative, and integers (Base/Int) where offsets may be
-- negative. A throw is err of the module's error type; messages and their context strings are
-- left out. A class is a record of its private fields, and a method returns the record after the
-- call. An async method is cut at its await, and the calls interleave as the steps of a
-- relation.
--
-- Bounds and fuel. resolvePointer has its 8 hops. The worklist of enforceNestingDepth runs on
-- fuel: each turn pops a pointer, whose target lies in a segment of the parsed frame, so a turn
-- pushes no more pointers than the limit on traversal words allows, and the depth is bounded by
-- the nesting limit; the fuel is (words + 1)^(depth + 1) + 1, for those two limits. The inner
-- read loop runs on the number of buffered bytes plus one, because each frame that it takes has
-- at least one byte. The reconnect loop runs on one turn more than the policy's number of
-- attempts. The builder doubles its capacity on as much fuel as bytes are required, since each
-- turn adds at least one. All other loops recurse on their data.
--
-- Not modelled: sockets, timers, promises and abort signals of the platform; observers that call
-- a breaker or a queue again; the deep copy of messages, and the encoding runtime, which copies
-- the content of payloads (its functions are the fields of the interface ContentCodec in
-- Wire/Codec/Messages); the text encoder and decoder of the platform, so that text is its bytes;
-- the client, the server and the code generator. Sizes are exact, with no limit on the
-- length of an array but those that the code checks.
pub mod Base
pub mod Wire
pub mod Transport
pub mod Session
