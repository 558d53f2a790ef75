-- ===== src/Collect.antt =====
-- crates/hw-collect: what becomes of the probes' devices and warnings.
pub mod Merge
pub mod Select
