-- ===== src/Gateway.antt =====
-- `GovernanceGateway` of src/governance/gateway.py.
pub mod Admit
pub mod Settle
pub mod Route
pub mod Standing
pub mod Admitted
pub mod Refused
pub mod Entry
pub mod Routed
pub mod Settled
