-- ===== src/Wire.antt =====
-- The wire layer, src/rpc/wire: framing, limits, segments, pointers and RPC messages.
pub mod Errors
pub mod PointerWord
pub mod FrameLimits
pub mod Framer
pub mod Segments
pub mod Pointers
pub mod Builder
pub mod Codec
pub mod Router
