-- ===== src/Model.antt =====
-- The data model: crates/hw-model.
pub mod Kind
pub mod Evidence
pub mod Properties
pub mod Device
pub mod Report
pub mod Snapshot
pub mod DeviceId
mod Tests
