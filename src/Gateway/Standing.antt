-- ===== src/Gateway/Standing.antt =====
-- How an admitted operation stands in the tables (src/governance/gateway.py).
use agentbridge.Base.{String, ◌≡◌, ap, ◌∙◌, some, string_eq, pair_eq}
use agentbridge.Base.Dict.{lookup}
use agentbridge.Store.{BudgetState, OperationRow, unknown, World}
use agentbridge.Gateway.Admit.{Call, Fresh}

-- The tables that account for an operation are the same.
abbrev pub SameAccounts : World → World → Type 0
SameAccounts v w =
    (v.budgets ≡ w.budgets)
    × (v.agent_operations ≡ w.agent_operations)
    × (v.operation_reservations ≡ w.operation_reservations)

module _ (k : Call) (f : Fresh) (o : String) where
  abbrev pub claimed_row : OperationRow
  claimed_row = record { fingerprint = k.scope; state = unknown; updated = f.clock.now }

  -- What `claim`, `reserve` and `attach_reservation` leave of an operation that was not known.
  pub record IsAdmitted (v : World) : Type 0 where
    pub claimed : lookup (k.agent_id, o) v.agent_operations ≡ some claimed_row
    pub linked : lookup (k.agent_id, o) v.operation_reservations ≡ some f.token
    pub budget : BudgetState
    pub stored : lookup k.agent_id v.budgets ≡ some budget
    pub held : lookup f.token budget.reserved ≡ some k.cost

  pub same-IsAdmitted : (u v : World) → SameAccounts v u → IsAdmitted u → IsAdmitted v
  same-IsAdmitted u v same h = record {
    claimed = ap (lookup (k.agent_id, o)) same.1 ∙ h.claimed;
    linked = ap (lookup (k.agent_id, o)) same.2 ∙ h.linked;
    budget = h.budget;
    stored = ap (lookup k.agent_id) same.0 ∙ h.stored;
    held = h.held;
  }
