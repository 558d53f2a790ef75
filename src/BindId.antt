-- ===== src/BindId.antt =====
-- The id that a report binds to the machine: crates/hw-bindid.
pub mod Key
pub mod Devices
pub mod Summary
pub mod Escape
pub mod Values
pub mod Stable
pub mod Complete
