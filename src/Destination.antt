-- ===== src/Destination.antt =====
-- src/governance/fenced_sqlite_destination.py: a destination that checks the fencing epoch and records
-- the effect in one transaction.
pub mod Target
pub mod Once
pub mod Stale
