-- ===== src/Budget/Manager.antt =====
-- `BudgetManager` of src/governance/budget.py over the `mutate_budget` of the store.
use agentbridge.Base.{ℕ, String, Bool, Option, none, some, string_eq}
use agentbridge.Base.Dict.{lookup, insert, remove}
use agentbridge.Store.{BudgetState, World}
use agentbridge.Store.Exec.{
  Reason, value_error, Result, ok, err, Exec, pure, gets, ◌>>=◌, ◌>>◌, modify,
}
use agentbridge.Budget.State.{
  RawCost, checked_cost, seed, can_afford_in, reserve_in, commit_in, release_in,
}

-- The read, the mutator and the write are one transaction, and no mutator raises.
unfoldable pub mutate_budget :
    {A : Type 0} → String → (Option BudgetState → A × BudgetState) → Exec A
mutate_budget agent_id mutator = do
  found ← gets (λ w. lookup agent_id w.budgets)
  let (result, state) = mutator found
  modify (λ db. record db { budgets = insert agent_id state db.budgets })
  pure result

unfoldable pub get_budget : String → Exec (Option BudgetState)
get_budget agent_id = gets (λ w. lookup agent_id w.budgets)

unfoldable pub upsert_budget : String → BudgetState → Exec (Unit {0})
upsert_budget agent_id state =
    modify (λ db. record db { budgets = insert agent_id state db.budgets })

-- `self._budgets.pop(agent_id, None)`
forget : String → Exec (Unit {0})
forget agent_id w = (ok tt, record w { budget_cache = remove agent_id w.budget_cache })

remember : String → BudgetState → Exec (Unit {0})
remember agent_id state w =
    (ok tt, record w { budget_cache = insert agent_id state w.budget_cache })

abbrev pub or_else {ℓ} : {A : Type ℓ} → Option A → A → A
or_else none a = a
or_else (some b) _ = b

abbrev pub cost_or_error : Option ℕ → Result ℕ
cost_or_error none = err value_error
cost_or_error (some c) = ok c

-- `_checked_cost`, as the methods call it.
abbrev pub check_cost : RawCost → Exec ℕ
check_cost raw w = (cost_or_error (checked_cost raw), w)

-- `default` is what `default_factory` returns.
module _ (default : BudgetState) where
  -- The base that `_seed` falls back on.
  abbrev pub base_budget : String → World → BudgetState
  base_budget agent_id w = or_else (lookup agent_id w.budget_cache) default

  pub set_budget : String → BudgetState → Exec (Unit {0})
  unfolding remember upsert_budget
  set_budget agent_id budget = do remember agent_id budget; upsert_budget agent_id budget

  unfoldable pub get : String → Exec BudgetState
  unfolding remember get_budget
  get agent_id = do
    found ← get_budget agent_id
    base ← gets (base_budget agent_id)
    let budget = or_else found base
    remember agent_id budget
    pure budget

  unfoldable pub can_afford : String → RawCost → ℕ → Exec (Bool × Reason)
  can_afford agent_id raw now = do
    cost ← check_cost raw
    base ← gets (base_budget agent_id)
    mutate_budget agent_id (λ s. can_afford_in cost now (seed base s))

  unfoldable pub reserve : String → RawCost → ℕ → String → Exec (Option String × Reason)
  unfolding forget
  reserve agent_id raw now token = do
    cost ← check_cost raw
    base ← gets (base_budget agent_id)
    result ← mutate_budget agent_id (λ s. reserve_in token cost now (seed base s))
    forget agent_id
    pure result

  unfoldable pub commit : String → String → ℕ → Exec Bool
  unfolding forget
  commit agent_id token now = do
    base ← gets (base_budget agent_id)
    result ← mutate_budget agent_id (λ s. commit_in token now (seed base s))
    forget agent_id
    pure result

  unfoldable pub release : String → String → Exec Bool
  unfolding forget
  release agent_id token = do
    base ← gets (base_budget agent_id)
    result ← mutate_budget agent_id (λ s. release_in token (seed base s))
    forget agent_id
    pure result
