-- ===== src/Approvals.antt =====
-- src/governance/approvals.py over the approval rows of src/governance/store.py.
pub mod Queue
pub mod Schedule
pub mod Grants
pub mod Scope
pub mod Consume
