-- ===== src/Wire.antt =====
-- The protocol adapters of src/protocols, and the hub that translates between any two of them.
pub mod Json
pub mod Canonical
pub mod Tools
pub mod Messages
pub mod Tasks
pub mod Registry
pub mod Roundtrip
pub mod Shapes
pub mod Actions
