-- ===== src/Checks/Sample.antt =====
-- Concrete data: an agent "ann" with a budget, a grant and an operation.
use agentbridge.Base.{ℕ, String, true, false, none, some, [], ◌∷◌}
use agentbridge.Store.{
  BudgetState, ApprovalRow, approved, OperationRow, unknown, AuditPayload, AuditEntry,
  TaskLifecycle, TaskRow, working, Db, World,
}
use agentbridge.Store.Exec.{Decision, authorized, ok}
use agentbridge.Policy.Engine.{Config, Clock, granted_as}
use agentbridge.Gateway.Admit.{Gateway, Call, Fresh, Admission}

abbrev pub purse : BudgetState
purse = record {
  spend_limit = 100;
  rate_limit = 5;
  window_seconds = 60;
  spent = 10;
  calls = 950 ∷ 990 ∷ [];
  reserved = ("t0", 7) ∷ [];
}

abbrev pub grant : ApprovalRow
grant = record {
  agent_id = "ann";
  capability = "pay|s1";
  cost = 7;
  status = approved;
  created_at = 3;
}

abbrev pub open_row : OperationRow
open_row = record { fingerprint = "s0"; state = unknown; updated = 900 }

abbrev pub job : TaskLifecycle
job = record {
  task_id = "job";
  context_id = "ctx";
  source_protocol = "a2a";
  state = working;
  sequence = 0;
}

abbrev pub job_row : TaskRow
job_row = record { snapshot = job; terminal = false }

abbrev pub tables : Db
tables = record {
  tenant_id = none;
  identities = ("ann", record { public_key_hex = "aa"; revoked = false }) ∷ [];
  budgets = ("ann", purse) ∷ [];
  audit = [];
  approvals = ("g1", grant) ∷ [];
  agent_operations = (("ann", "op0"), open_row) ∷ [];
  operation_reservations = (("ann", "op0"), "t0") ∷ [];
  operation_authority = [];
  audit_policy = none;
  audit_holds = [];
  task_operation_links = [];
  task_snapshots = (("ann", "job"), job_row) ∷ [];
  task_events = (("ann", "job"), job) ∷ [];
  history_max_tasks = 10;
  quota_policy = none;
  quota_records = [];
  event_max_bytes = 20000;
}

abbrev pub start : World
start = record {
  db = tables;
  budget_cache = [];
  sensitive = "pay" ∷ [];
  capability_allow = [];
  legal_hold = false;
}

abbrev pub config : Config
config = record {
  authority_mode = none;
  production = false;
  allowlists = none;
  require_verified = true;
  has_approvals = true;
  policy_set = none;
  default_budget = purse;
  verify = λ key message signature. true;
}

abbrev pub constant_hash : AuditPayload → String
constant_hash p = p.action

abbrev pub flat_size : AuditEntry → ℕ
flat_size e = 500

abbrev pub gateway : Gateway
gateway = record { config = config; hash = constant_hash; size = flat_size; text = λ why. "reason" }

abbrev pub call_of : String → String → Call
call_of operation scope = record {
  agent_id = "ann";
  src = "a2a";
  dst = "mcp";
  capability = "pay";
  cost = 7;
  operation_id = some operation;
  scope = scope;
  signed_data = none;
  signature = none;
  proof = false;
  wire = ok "wire";
}

abbrev pub clock : Clock
clock = record { now = 1000; weekday = 1; hour = 12 }

abbrev pub fresh : Fresh
fresh = record { token = "t1"; approval_id = "g2"; clock = clock }

abbrev pub needs_grant : Decision
needs_grant = granted_as authorized true

-- The admission behind the open operation "op0".
abbrev pub admission : Admission
admission = record {
  call = call_of "op0" "s0";
  token = "t0";
  wire = "wire";
  decision = granted_as authorized false;
}
