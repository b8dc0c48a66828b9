-- ===== src/Types.antt =====
-- src/types.rs: type descriptions, the codec that they drive, and the registry of named types.
pub mod Init
pub mod Variants
pub mod Meta
pub mod Encode
pub mod Decode
pub mod RoundTrip
pub mod Appends
pub mod Custom
pub mod Scan
pub mod Registry
pub mod Parser
pub mod Schema
pub mod Portable
pub mod Import
