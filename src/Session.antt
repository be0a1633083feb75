-- ===== src/Session.antt =====
-- Parts of rpc/session.
pub mod FrameQueue
