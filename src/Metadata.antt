-- ===== src/Metadata.antt =====
-- src/metadata.rs: the keys of the chain's storage, from the description of a storage item.
pub mod Hasher
pub mod Storage
pub mod Keys
pub mod Pallets
pub mod Modules
pub mod Top
pub mod Legacy
pub mod V12
pub mod V13
pub mod Runtime
