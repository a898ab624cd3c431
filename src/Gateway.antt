-- ===== src/Gateway.antt =====
-- saap/gateway: the compliance chain as the gateway builds it.
pub mod Room
pub mod Settings
pub mod Defs
pub mod Runs
pub mod Stream
pub mod Delivery
pub mod Channels
pub mod Matrix
pub mod Chat
pub mod Entry
pub mod Runtimes
pub mod Reply
pub mod Refusals
