-- ===== src/Inventory.antt =====
-- The snapshot inventory: crates/hw-inventory.
pub mod Error
pub mod Canonical
pub mod Store
pub mod Service
pub mod Diff
