-- ===== src/Quotas.antt =====
-- src/governance/admission_quotas.py: caps on what a tenant and a user may have admitted.
pub mod Usage
pub mod Owner
pub mod Admit
pub mod Counts
pub mod Claimed
pub mod Bounds
