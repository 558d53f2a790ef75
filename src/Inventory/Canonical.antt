-- ===== src/Inventory/Canonical.antt =====
-- crates/hw-inventory/src/canonical.rs: the canonical records of a machine, their digests, and the
-- identity groups that they cover. The JSON encoder and SHA-256 are other crates' and come as a
-- `Codec`.
mod Normalize
mod Records
pub mod Digest
pub mod Values
pub mod Order
pub mod Coverage
unfoldable pub use Normalize.*
unfoldable pub use Records.*
