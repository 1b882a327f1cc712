-- ===== src/Store/Rows.antt =====
-- The rows of the tables that src/governance/store.py and operation_ledger.py create. A table is
-- a dictionary from its primary key; the audit table, whose key is the sequence number, is a list.
use agentbridge.Base.{ℕ, String, Bool, Option, List}
use agentbridge.Base.Dict.{Dict}

pub record IdentityRow : Type 0 where
  pub public_key_hex : String
  pub revoked : Bool

-- The JSON of a row of `budgets`: `Budget.state()`, where its amounts are whole numbers and its times
-- whole ticks. Amounts with a fraction, on which Python's floats round, are not modelled.
pub record BudgetState : Type 0 where
  pub spend_limit : ℕ
  pub rate_limit : ℕ
  pub window_seconds : ℕ
  pub spent : ℕ
  pub calls : List ℕ
  pub reserved : Dict String ℕ

pub data ApprovalStatus : Type 0 where
  pending approved denied consumed : ApprovalStatus

pub record ApprovalRow : Type 0 where
  pub agent_id : String
  pub capability : String
  pub cost : ℕ
  pub status : ApprovalStatus
  pub created_at : ℕ

pub data OperationState : Type 0 where
  unknown succeeded failed : OperationState

pub record OperationRow : Type 0 where
  pub fingerprint : String
  pub state : OperationState
  pub updated : ℕ

-- `AuditEntry` of src/governance/audit.py, and its fields but the hash.
pub record AuditPayload : Type 0 where
  pub seq : ℕ
  pub timestamp : ℕ
  pub actor : String
  pub action : String
  pub source_protocol : String
  pub target_protocol : String
  pub capability : String
  pub decision : String
  pub reason : String
  pub cost : ℕ
  pub prev_hash : String

pub record AuditEntry : Type 0 where
  pub payload : AuditPayload
  pub open payload use *
  pub entry_hash : String

-- The row of `audit_capacity_policy_v1` of src/governance/audit_capacity.py, of version 1.
pub record AuditPolicy : Type 0 where
  pub max_records : ℕ
  pub max_bytes : ℕ
  pub max_entry_bytes : ℕ
  pub used_records : ℕ
  pub used_bytes : ℕ

-- `TaskState` and `TaskLifecycle` of src/protocols/task_lifecycle.py.
pub data TaskState : Type 0 where
  submitted working input_required auth_required completed failed canceled rejected : TaskState

pub record TaskLifecycle : Type 0 where
  pub task_id : String
  pub context_id : String
  pub source_protocol : String
  pub state : TaskState
  pub sequence : ℕ

-- A row of `task_lifecycle_snapshots`.
pub record TaskRow : Type 0 where
  pub snapshot : TaskLifecycle
  pub terminal : Bool

-- `QuotaLimits` of src/governance/admission_quotas.py, and a row of `admission_quota_records_v1`. A
-- policy that is missing or of another version is `none`.
pub record QuotaLimits : Type 0 where
  pub enabled : Bool
  pub spend_limit : ℕ
  pub user_spend_limit : ℕ
  pub rate_limit : ℕ
  pub user_rate_limit : ℕ
  pub window_seconds : ℕ
  pub max_active : ℕ
  pub user_max_active : ℕ
  pub max_records : ℕ

pub record QuotaRecord : Type 0 where
  pub fingerprint : String
  pub owner : String
  pub cost : ℕ
  pub admitted : ℕ

pub record Db : Type 0 where
  pub tenant_id : Option String
  pub identities : Dict String IdentityRow
  pub budgets : Dict String BudgetState
  pub audit : List AuditEntry
  pub approvals : Dict String ApprovalRow
  pub agent_operations : Dict (String × String) OperationRow
  pub operation_reservations : Dict (String × String) String
  pub operation_authority : Dict (String × String) String
  pub audit_policy : Option AuditPolicy
  pub audit_holds : Dict String Bool
  pub task_operation_links : List (String × String)
  pub task_snapshots : Dict (String × String) TaskRow
  pub task_events : List ((String × String) × TaskLifecycle)
  pub history_max_tasks : ℕ
  pub event_max_bytes : ℕ
  pub quota_policy : Option QuotaLimits
  pub quota_records : Dict (String × String) QuotaRecord

-- One worker: the shared database, and what the process holds beside it. `budget_cache` is
-- `BudgetManager._budgets`, `sensitive` is `ApprovalQueue._sensitive` and `capability_allow` is
-- `PolicyEngine._capability_allow` and `legal_hold` is `AuditLog._legal_hold`.
pub record World : Type 0 where
  pub db : Db
  pub open db use *
  pub budget_cache : Dict String BudgetState
  pub sensitive : List String
  pub capability_allow : Dict String (List String)
  pub legal_hold : Bool
