-- ===== src/Rpc.antt =====
-- The remote procedure call protocol (madbfs-common/src/rpc.cpp).
pub mod Wire
pub mod Payload
pub mod Request
pub mod Response
pub mod EndToEnd
pub mod Frame
pub mod Server
pub mod Client
mod Tests
