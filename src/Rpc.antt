-- ===== src/Rpc.antt =====
-- libs/yukino_rpc: the RPC library.
pub mod Breaker
pub mod Balance
pub mod Limiter
pub mod Protocol
mod Tests
