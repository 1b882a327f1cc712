-- ===== src/Memory.antt =====
-- `InMemoryStore` of src/governance/store.py beside the SQL store.
pub mod Store
pub mod Calls
pub mod Refines
