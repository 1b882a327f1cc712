-- ===== src/Ledger.antt =====
-- src/governance/operation_ledger.py and owned_settlement.py.
pub mod Defs
pub mod Settlement
pub mod Once
pub mod Tokens
pub mod Outcome
