-- ===== src/Client.antt =====
-- src/client.rs: what follows a submitted extrinsic, from its pool status to its events.
pub mod Tracking
pub mod CallResult
pub mod Extrinsic
pub mod Requests
pub mod Blocks
