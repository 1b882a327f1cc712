-- ===== src/Policy.antt =====
-- src/governance/policy_rules.py, policy.py, identity.py and rbac.py: who may call what.
pub mod Rules
pub mod RuleOrder
pub mod Identity
pub mod Engine
pub mod Gate
pub mod Rbac
