-- ===== src/Tests.antt =====
-- The theorems at concrete inputs.
pub mod Versions
pub mod Codec
pub mod Values
pub mod Connections
pub mod Chain
pub mod Devices
pub mod Items
pub mod Registry
pub mod Blocks
pub mod Modules
