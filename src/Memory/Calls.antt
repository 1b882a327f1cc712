-- ===== src/Memory/Calls.antt =====
-- The calls that both stores of src/governance/store.py answer, and their answers.
use agentbridge.Base.{ℕ, String, Bool, Option, List, [], ◌∷◌, string_eq}
use agentbridge.Base.Dict.{lookup}
use agentbridge.Store.{IdentityRow, BudgetState, ApprovalRow, ApprovalStatus, AuditEntry}
use agentbridge.Store.Exec.{Exec, pure, gets, ◌>>=◌, ◌>>◌}
use agentbridge.Policy.Identity.{upsert_identity}
use agentbridge.Budget.Manager.{upsert_budget, get_budget, mutate_budget}
use agentbridge.Approvals.Queue.{
  delete_approval, insert_approval, get_approval, update_approval_status, consume_approval,
}
use agentbridge.Audit.Table.{audit_count, head_of, append_audit_chained, truncate_audit_before}
use agentbridge.Memory.Store.{Memory}
use agentbridge.Memory.Store as Memory

pub data StoreCall : Type 0 where
  put_identity : String → String → Bool → StoreCall
  read_identity : String → StoreCall
  put_budget : String → BudgetState → StoreCall
  read_budget : String → StoreCall
  change_budget : String → (Option BudgetState → Bool × BudgetState) → StoreCall
  put_approval : String → ApprovalRow → StoreCall
  read_approval : String → StoreCall
  decide_approval : String → ApprovalStatus → StoreCall
  use_approval : String → StoreCall
  append_entry : (ℕ → String → AuditEntry) → StoreCall
  read_head : StoreCall
  cut_audit : ℕ → StoreCall
  count_audit : StoreCall
  drop_approval : String → StoreCall

pub data Answer : Type 0 where
  nothing : Answer
  flag : Bool → Answer
  identity : Option IdentityRow → Answer
  budget : Option BudgetState → Answer
  approval : Option ApprovalRow → Answer
  entry : AuditEntry → Answer
  head : Option AuditEntry → Answer
  count : ℕ → Answer

abbrev pub flagged : Bool × Memory → Answer × Memory
flagged (b, m) = (flag b, m)

abbrev pub appended : AuditEntry × Memory → Answer × Memory
appended (e, m) = (entry e, m)

abbrev pub counted : ℕ × Memory → Answer × Memory
counted (n, m) = (count n, m)

-- `InMemoryStore`; the answer to `read_budget` is given without the `agent_id` that this store adds.
unfoldable pub in_memory : StoreCall → Memory → Answer × Memory
in_memory (put_identity a k r) m = (nothing, Memory.upsert_identity a k r m)
in_memory (read_identity a) m = (identity (Memory.get_identity a m), m)
in_memory (put_budget a s) m = (nothing, Memory.upsert_budget a s m)
in_memory (read_budget a) m = (budget (Memory.state_of (Memory.get_budget a m)), m)
in_memory (change_budget a f) m = flagged (Memory.mutate_budget a f m)
in_memory (put_approval id row) m = (nothing, Memory.insert_approval id row m)
in_memory (read_approval id) m = (approval (Memory.get_approval id m), m)
in_memory (decide_approval id s) m = flagged (Memory.update_approval_status id s m)
in_memory (use_approval id) m = flagged (Memory.consume_approval id m)
in_memory (append_entry build) m = appended (Memory.append_audit_chained build m)
in_memory read_head m = (head (Memory.load_audit_head m), m)
in_memory (cut_audit n) m = counted (Memory.truncate_audit_before n m)
in_memory count_audit m = (count (Memory.audit_count m), m)
in_memory (drop_approval id) m = flagged (Memory.delete_approval id m)

-- `SqliteStore`; its process may run in production.
unfoldable pub in_sql : (AuditEntry → ℕ) → Bool → StoreCall → Exec Answer
in_sql size production (put_identity a k r) = upsert_identity a k r >> pure nothing
in_sql size production (read_identity a) = gets (λ w. identity (lookup a w.identities))
in_sql size production (put_budget a s) = upsert_budget a s >> pure nothing
in_sql size production (read_budget a) = get_budget a >>= λ b. pure (budget b)
in_sql size production (change_budget a f) = mutate_budget a f >>= λ b. pure (flag b)
in_sql size production (put_approval id row) = insert_approval id row >> pure nothing
in_sql size production (read_approval id) = get_approval id >>= λ r. pure (approval r)
in_sql size production (decide_approval id s) = update_approval_status id s >>= λ b. pure (flag b)
in_sql size production (use_approval id) = consume_approval id >>= λ b. pure (flag b)
in_sql size production (append_entry build) =
    append_audit_chained size build >>= λ e. pure (entry e)
in_sql size production read_head = gets (λ w. head (head_of w.audit))
in_sql size production (cut_audit n) =
    truncate_audit_before size production n >>= λ k. pure (count k)
in_sql size production count_audit = audit_count >>= λ n. pure (count n)
in_sql size production (drop_approval id) = delete_approval id >>= λ b. pure (flag b)

-- A sequence of calls and what it answers.
unfoldable pub run_memory : List StoreCall → Memory → List Answer × Memory
run_memory [] m = ([], m)
run_memory (c ∷ cs) m =
    let (a, m₁) = in_memory c m in let (rest, m₂) = run_memory cs m₁ in (a ∷ rest, m₂)

unfoldable pub run_sql : (AuditEntry → ℕ) → Bool → List StoreCall → Exec (List Answer)
run_sql size production [] = pure []
run_sql size production (c ∷ cs) = do
  a ← in_sql size production c
  rest ← run_sql size production cs
  pure (a ∷ rest)
