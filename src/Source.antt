-- ===== src/Source.antt =====
-- How the program reads its machine: crates/hw-source.
pub mod Answer
pub mod Cell
pub mod Cached
pub mod Fake
