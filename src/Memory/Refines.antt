-- ===== src/Memory/Refines.antt =====
-- The in-memory store of src/governance/store.py answers as the SQL store does.
use agentbridge.Base.{String, false, ◌≡◌, List, [], ◌∷◌, string_eq}
use agentbridge.Base.Dict.{Dict, has}
use agentbridge.Store.{BudgetState, World}
use agentbridge.Memory.Store.{Memory, BudgetRecord}
use agentbridge.Memory.Store as Memory
use agentbridge.Memory.Calls.{StoreCall, put_approval, in_memory}

-- The id of a new approval is new, as that of a fresh `uuid4` is.
abbrev pub IsFresh : StoreCall → Memory → Type 0
IsFresh (put_approval id row) m = has id m.approvals ≡ false
IsFresh _ m = Unit

abbrev pub AreFresh : List StoreCall → Memory → Type 0
AreFresh [] m = Unit
AreFresh (c ∷ cs) m = IsFresh c m × AreFresh cs (in_memory c m).1

abbrev pub with_agent : Dict String BudgetState → Dict String BudgetRecord
with_agent [] = []
with_agent ((a, s) ∷ d) = (a, record { agent_id = a; state = s }) ∷ with_agent d

-- The memory that holds the rows of a world, each budget with its agent.
abbrev pub view : World → Memory
view w = record {
  identities = w.identities;
  budgets = with_agent w.budgets;
  audit = w.audit;
  approvals = w.approvals;
}
