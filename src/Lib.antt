-- ===== src/Lib.antt =====
-- The governance core of AgentBridge: what stands between an agent that asks for a call and the
-- effect of the call. A call is authorized, reserves budget, claims its operation id, consumes an
-- approval where one is required, is invoked, and is settled or left unknown; every decision is
-- appended to a chained audit log. The state is one SQL database, shared by all workers, and the
-- little that a process keeps beside it.
--
--   Base       names of the libraries, Boolean tests, lists and dictionaries
--   Store      the rows of the tables, a world (one database and one process), methods that change
--              it and may raise, and `sql_atomic` (src/governance/store.py)
--   Budget     src/governance/budget.py: `State` has the mutators of a persisted budget, `Manager` the
--              methods of `BudgetManager` over `mutate_budget` of the store
--   Ledger     src/governance/operation_ledger.py in `Defs`, and
--              src/governance/owned_settlement.py in `Settlement`
--   Approvals  src/governance/approvals.py in `Queue`, with the approval statements of the store
--   Policy     src/governance/policy.py in `Engine`, policy_rules.py in `Rules`, identity.py in
--              `Identity` and rbac.py in `Rbac`
--   Audit      src/governance/audit.py in `Log`; the audit statements of the store, with the triggers
--              of src/governance/audit_capacity.py, in `Table`
--   Tasks      src/protocols/task_lifecycle.py in `State`, durable_task_lifecycle.py in `Durable`
--   Gateway    src/governance/gateway.py: `Admit` has `_admit_guarded` and `_admit_transaction`,
--              `Settle` has `_settle`, `_abort_admission` and `_invocation_failed`, and `Route` has
--              `route_call`
--   Guards     src/governance/durable_replay.py in `Replay`, pg_fencing.py in `Fencing` and
--              resilience.py in `Retry`
--   Authority  src/governance/authority.py: `Tables` has the rows and the principal, `Current` the
--              checks of a principal, `Enroll`, `Delegate`, `Requests` and `Operators` the calls
--   Quotas     src/governance/admission_quotas.py: `Owner`, `Usage`, and `Admit` with the claim trigger
--   Streams    src/governance/durable_stream_leases.py in `Leases`
--   Destination  src/governance/fenced_sqlite_destination.py in `Target`
--   Wire       src/protocols: `Json` has the values, `Canonical` canonical.py, `Tools` mcp.py,
--              openai_fc.py and gemini.py, `Messages` acp.py and agntcy_acp.py, `Tasks` a2a.py and
--              `Registry` registry.py
--   Memory     `InMemoryStore` of src/governance/store.py in `Store`, and in `Calls` the calls that it
--              and the SQL store answer
--   Checks     the theorems at concrete inputs
--
-- The other files of a folder hold the theorems about it.
--
-- Conventions. A method is a function from a world to a result and the world after it, so that what
-- was written before a raise stays unless an enclosing transaction rolls it back. Concurrency is a
-- sequence of transactions, which is what the database makes of it. Random tokens and the clock are
-- arguments. Amounts are whole numbers, as they are where callers count in a smallest unit; the sums
-- of Python's floats on amounts with a fraction, which round, are not modelled. Times are whole ticks.
-- The hash of an entry, the sizes
-- of JSON texts, Ed25519, `str.strip`, the parse of a nonce, `json.loads` and `json.dumps` are
-- parameters; of these only the two last are assumed anything of, where a theorem says so, and of the
-- random part of a delay that it is no longer than the delay. The directory of principals is its own
-- database: a call of it returns the tables that its transaction commits. There is no fuel: every loop is a structural recursion.
--
-- Not modelled: the tenant kernel, which ties the directory and the quotas to the gateway, queued tasks
-- and the queued contract of the destination, reconciliation, the weaker path of separate
-- stores, the results of the protocol adapters, schema bootstraps, and servers, command
-- lines and telemetry.
pub mod Base
pub mod Store
pub mod Budget
pub mod Ledger
pub mod Approvals
pub mod Authority
pub mod Quotas
pub mod Streams
pub mod Destination
pub mod Memory
pub mod Policy
pub mod Audit
pub mod Tasks
pub mod Gateway
pub mod Guards
pub mod Wire
pub mod Checks
