-- ===== src/Ledger.antt =====
-- src/plugins/ledger.rs: the commands for a Ledger device.
pub mod Bip44
pub mod Signing
pub mod Framing
pub mod App
