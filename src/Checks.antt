-- ===== src/Checks.antt =====
-- The theorems at concrete inputs.
pub mod Sample
mod Money
mod Grants
mod Rules
mod Logs
mod Jobs
mod Calls
mod Tokens
mod Routes
mod Wires
pub mod Enrolled
mod Capped
mod Fenced
mod Stored
