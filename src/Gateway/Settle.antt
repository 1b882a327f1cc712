-- ===== src/Gateway/Settle.antt =====
-- The outcome of an admitted call in src/governance/gateway.py, over one shared SQL store: settled,
-- aborted before the invocation, or failed with an uncertain outcome.
use agentbridge.Base.{ℕ, String, not, Option, none, some}
use agentbridge.Store.{OperationState, succeeded, failed, AuditEntry}
use agentbridge.Store.Exec.{Exec, runtime_error, pure, raise_if, sql_atomic, ◌>>=◌, ◌>>◌}
use agentbridge.Budget.Manager
use agentbridge.Ledger.Defs
use agentbridge.Ledger.Settlement.{lock_unknown_operation, settle_owned_reservation}
use agentbridge.Audit.Log.{record_entry}
use agentbridge.Gateway.Admit.{Gateway, Admission, fields_of}

module _ (g : Gateway) (a : Admission) (now : ℕ) where
  -- The lock of `_atomic_state`.
  abbrev pub lock_if : Option String → Exec (Unit {0})
  lock_if none = pure tt
  lock_if (some o) = lock_unknown_operation a.call.agent_id o >> pure tt

  unfoldable pub audit_admission : String → String → ℕ → Exec AuditEntry
  audit_admission decision reason cost =
      record_entry g.hash g.size (fields_of a.call decision reason cost now)

  abbrev pub finish_if : OperationState → Option String → Exec (Unit {0})
  finish_if state none = pure tt
  finish_if state (some o) = Defs.finish a.call.agent_id o state now

  unfoldable pub abort_body : Exec (Unit {0})
  unfolding audit_admission
  abort_body = do
    lock_if a.call.operation_id
    Manager.release g.config.default_budget a.call.agent_id a.token
    finish_if failed a.call.operation_id
    audit_admission "error" "request canceled before invocation" 0
    pure tt

  -- `_abort_admission`, in its `_atomic_state`
  unfoldable pub abort_admission : Exec (Unit {0})
  unfolding abort_body
  abort_admission = sql_atomic abort_body

  abbrev pub settle_if : Option String → Exec (Unit {0})
  settle_if (some o) = do
    settle_owned_reservation g.config.default_budget a.call.agent_id o a.token succeeded
        (some a.call.cost) now
    pure tt
  settle_if none = do
    charged ← Manager.commit g.config.default_budget a.call.agent_id a.token now
    raise_if (not charged) runtime_error

  unfoldable pub settle_body : Exec (Unit {0})
  unfolding audit_admission
  settle_body = do
    lock_if a.call.operation_id
    settle_if a.call.operation_id
    audit_admission "allow" (g.text a.decision.reason) a.call.cost
    pure tt

  -- `_settle`, in its `_atomic_state`
  unfoldable pub settle : Exec (Unit {0})
  unfolding settle_body
  settle = sql_atomic settle_body

  -- With an operation id the outcome is uncertain: the reservation and the operation stay as they are.
  -- `why` is the text of the exception.
  abbrev pub failure : String → Option String → Exec (Unit {0})
  failure why (some o) = audit_admission "unknown" why 0 >> pure tt
  failure why none = do
    Manager.release g.config.default_budget a.call.agent_id a.token
    audit_admission "error" why 0
    pure tt

  unfoldable pub invocation_failed : String → Exec (Unit {0})
  unfolding audit_admission
  invocation_failed why = failure why a.call.operation_id
