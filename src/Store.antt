-- ===== src/Store.antt =====
-- src/governance/store.py: the governance tables of one SQL database, and the transactions on them.
mod Rows
pub mod Exec
pub mod Atomic
pub use Rows.*
