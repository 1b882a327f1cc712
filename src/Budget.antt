-- ===== src/Budget.antt =====
-- src/governance/budget.py: spend and rate caps. The mutators work on the persisted state of one
-- agent, and `BudgetManager` runs them inside the store's `mutate_budget`.
pub mod State
pub mod Manager
pub mod Solvency
pub mod Accounting
pub mod Deque
pub mod Schedule
