-- ===== src/Transport.antt =====
-- Parts of rpc/transports that keep state of their own.
pub mod CircuitBreaker
pub mod OutboundQueue
pub mod Reconnect
pub mod CloseSignal
pub mod Pool
