-- ===== src/Authority.antt =====
-- src/governance/authority.py: the directory of tenants, members, agents and delegations, and the
-- principals that it mints.
pub mod Outcome
pub mod Tables
pub mod Text
pub mod Current
pub mod Enroll
pub mod Delegate
pub mod Requests
pub mod Operators
pub mod Calls
pub mod Effects
pub mod Writes
pub mod Served
pub mod Grants
pub mod Grows
pub mod Held
pub mod Superseded
pub mod Admins
pub mod Scopes
pub mod Reach
