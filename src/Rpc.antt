-- ===== src/Rpc.antt =====
-- src/rpc.rs: JSON-RPC over a web socket: the connection, which routes answers and subscription
-- updates to the channels of the callers, and the handler, which waits on such a channel.
pub mod Session
pub mod Pending
pub mod Message
pub mod Connection
pub mod Routing
pub mod Invariant
pub mod Reachable
pub mod Handler
pub mod Manager
