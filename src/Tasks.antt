-- ===== src/Tasks.antt =====
-- src/protocols/task_lifecycle.py and durable_task_lifecycle.py: task status, never execution.
pub mod State
pub mod Durable
pub mod Legal
pub mod Bytes
pub mod Create
pub mod Cancel
