-- ===== src/Ledger/Settlement.antt =====
-- src/governance/owned_settlement.py: settle the exact reservation of an operation.
use agentbridge.Base.{
  ℕ, String, Bool, true, false, not, Option, none, some, ◌==◌, string_eq, nat_eq, pair_eq,
  if◌then◌else◌,
}
use agentbridge.Base.Dict.{lookup}
use agentbridge.Store.{BudgetState, OperationRow, OperationState, unknown, succeeded}
use agentbridge.Store.Exec.{
  Exec, value_error, operation_conflict, already_settled, exact_token_required, reservation_missing,
  cost_mismatch, pure, raise, gets, raise_if, ◌>>=◌, ◌>>◌,
}
use agentbridge.Budget.Manager
use agentbridge.Ledger.Defs.{is_unknown, finish}

abbrev pub required_row : Option OperationRow → Exec OperationRow
required_row none = raise (operation_conflict already_settled)
required_row (some row) =
    if is_unknown (some row) then pure row else raise (operation_conflict already_settled)

unfoldable pub lock_unknown_operation : String → String → Exec OperationRow
lock_unknown_operation agent_id operation_id = do
  row ← gets (λ w. lookup (agent_id, operation_id) w.agent_operations)
  required_row row

abbrev pub is_exactly : String → Option String → Bool
is_exactly token none = false
is_exactly token (some t) = t == token

-- `state.get("reserved", {}).get(token)`
abbrev pub held_amount : String → Option BudgetState → Option ℕ
held_amount token none = none
held_amount token (some s) = lookup token s.reserved

abbrev pub required_amount : Option ℕ → Exec ℕ
required_amount none = raise (operation_conflict reservation_missing)
required_amount (some amount) = pure amount

abbrev pub differs : ℕ → Option ℕ → Bool
differs amount none = false
differs amount (some expected) = not (amount == expected)

-- `outcome not in ("succeeded", "failed")`
abbrev pub is_unsettled : OperationState → Bool
is_unsettled unknown = true
is_unsettled _ = false

module _ (default : BudgetState) where
  abbrev pub settle_budget : OperationState → String → String → ℕ → Exec Bool
  settle_budget succeeded agent_id token now = Manager.commit default agent_id token now
  settle_budget _ agent_id token now = Manager.release default agent_id token

  -- The operation is locked already; nothing here starts a transaction of its own.
  unfoldable pub settle_owned_reservation :
      String → String → String → OperationState → Option ℕ → ℕ → Exec ℕ
  settle_owned_reservation agent_id operation_id token outcome expected_cost now = do
    raise_if (is_unsettled outcome) value_error
    reservation ← gets (λ w. lookup (agent_id, operation_id) w.operation_reservations)
    raise_if (not (is_exactly token reservation)) (operation_conflict exact_token_required)
    state ← Manager.get_budget agent_id
    amount ← required_amount (held_amount token state)
    raise_if (differs amount expected_cost) (operation_conflict cost_mismatch)
    changed ← settle_budget outcome agent_id token now
    raise_if (not changed) (operation_conflict reservation_missing)
    finish agent_id operation_id outcome now
    pure amount
