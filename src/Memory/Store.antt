-- ===== src/Memory/Store.antt =====
-- The methods of `InMemoryStore` in src/governance/store.py.
use agentbridge.Base.{
  ℕ, ◌-◌, String, Bool, true, false, not, Option, none, some, List, [], ◌∷◌, ◌++◌, ◌==◌, string_eq,
  nat_eq, ltb, if◌then◌else◌, length, filter,
}
use agentbridge.Base.Dict.{has, remove, Dict, lookup, insert}
use agentbridge.Store.{IdentityRow, BudgetState, ApprovalRow, ApprovalStatus, consumed, AuditEntry}
use agentbridge.Approvals.Queue.{is_pending, is_approved}
use agentbridge.Audit.Table.{head_of, next_seq, next_prev}

-- A budget with the key that this store keeps beside the state.
pub record BudgetRecord : Type 0 where
  pub agent_id : String
  pub state : BudgetState

pub record Memory : Type 0 where
  pub identities : Dict String IdentityRow
  pub budgets : Dict String BudgetRecord
  pub audit : List AuditEntry
  pub approvals : Dict String ApprovalRow

unfoldable pub upsert_identity : String → String → Bool → Memory → Memory
upsert_identity agent_id public_key_hex revoked m = record m {
  identities =
      insert agent_id (record { public_key_hex = public_key_hex; revoked = revoked }) m.identities;
}

unfoldable pub get_identity : String → Memory → Option IdentityRow
get_identity agent_id m = lookup agent_id m.identities

unfoldable pub upsert_budget : String → BudgetState → Memory → Memory
upsert_budget agent_id state m = record m {
  budgets = insert agent_id (record { agent_id = agent_id; state = state }) m.budgets;
}

unfoldable pub get_budget : String → Memory → Option BudgetRecord
get_budget agent_id m = lookup agent_id m.budgets

-- The record without its `agent_id`.
abbrev pub state_of : Option BudgetRecord → Option BudgetState
state_of none = none
state_of (some r) = some r.state

-- The mutator gets the state of the record, or nothing.
unfoldable pub mutate_budget :
    {A : Type 0} → String → (Option BudgetState → A × BudgetState) → Memory → A × Memory
mutate_budget agent_id mutator m =
    let (result, state) = mutator (state_of (lookup agent_id m.budgets)) in
    (
      result,
      record m {
        budgets = insert agent_id (record { agent_id = agent_id; state = state }) m.budgets;
      },
    )

unfoldable pub load_audit_head : Memory → Option AuditEntry
load_audit_head m = head_of m.audit

unfoldable pub append_audit_chained : (ℕ → String → AuditEntry) → Memory → AuditEntry × Memory
append_audit_chained build m =
    let last = head_of m.audit in
    let entry = build (next_seq last) (next_prev last) in
    (entry, record m { audit = m.audit ++ entry ∷ [] })

unfoldable pub truncate_audit_before : ℕ → Memory → ℕ × Memory
truncate_audit_before n m =
    let kept = filter (λ e. not (ltb e.seq n)) m.audit in
    if n == 0 then (0, m) else (length m.audit - length kept, record m { audit = kept })

unfoldable pub insert_approval : String → ApprovalRow → Memory → Memory
insert_approval id row m = record m { approvals = insert id row m.approvals }

unfoldable pub get_approval : String → Memory → Option ApprovalRow
get_approval id m = lookup id m.approvals

abbrev pub set_status :
    (ApprovalStatus → Bool) → String → ApprovalStatus → Option ApprovalRow → Memory → Bool × Memory
set_status from id to none m = (false, m)
set_status from id to (some row) m =
    if from row.status
    then (true, record m { approvals = insert id (record row { status = to }) m.approvals })
    else (false, m)

unfoldable pub update_approval_status : String → ApprovalStatus → Memory → Bool × Memory
update_approval_status id status m = set_status is_pending id status (lookup id m.approvals) m

unfoldable pub consume_approval : String → Memory → Bool × Memory
consume_approval id m = set_status is_approved id consumed (lookup id m.approvals) m

unfoldable pub audit_count : Memory → ℕ
audit_count m = length m.audit

unfoldable pub delete_approval : String → Memory → Bool × Memory
delete_approval id m = (has id m.approvals, record m { approvals = remove id m.approvals })
