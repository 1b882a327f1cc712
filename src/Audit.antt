-- ===== src/Audit.antt =====
-- src/governance/audit.py and audit_capacity.py: the hash-linked audit table.
pub mod Table
pub mod Log
pub mod Links
pub mod Tamper
pub mod Capacity
pub mod Retention
