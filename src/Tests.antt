-- ===== src/Tests.antt =====
-- Concrete inputs, and the theorems applied to them.
mod Data
mod Store
mod Service
mod Canonical
mod Parts
mod Bindings
mod Sources
mod Waiting
mod Parsers
mod Steps
