-- ===== src/Budget/State.antt =====
-- The pure mutators of src/governance/budget.py. A mutator gets the persisted state, `none` for an
-- agent that has no row, and returns its result and the state to persist.
use agentbridge.Base.{
  ℕ, ◌+◌, String, Bool, true, false, Option, none, some, [], ◌∷◌, ◌++◌, length, filter, ltb, leb,
  if◌then◌else◌, string_eq,
}
use agentbridge.Base.Dict.{Dict, lookup, insert, remove}
use agentbridge.Store.{BudgetState}
use agentbridge.Store.Exec.{
  Reason, ok_reason, reserved_reason, spend_cap_exceeded, rate_cap_exceeded,
}

-- What a caller may pass as a cost. The only finite
-- numbers are whole ones.
pub data RawCost : Type 0 where
  boolean not_number not_finite negative : RawCost
  num : ℕ → RawCost

-- `none` is the `ValueError`.
unfoldable pub checked_cost : RawCost → Option ℕ
checked_cost (num c) = some c
checked_cost _ = none

unfoldable pub prune : ℕ → BudgetState → BudgetState
prune now s = record s { calls = filter (λ t. ltb now (t + s.window_seconds)) s.calls }

abbrev pub sum_values : Dict String ℕ → ℕ
sum_values [] = 0
sum_values ((_, v) ∷ d) = v + sum_values d

abbrev pub reserved_sum : BudgetState → ℕ
reserved_sum s = sum_values s.reserved

-- `base` is the cached budget of the agent, or the default.
unfoldable pub seed : BudgetState → Option BudgetState → BudgetState
seed base none = base
seed base (some s) = s

-- The two tests that `can_afford` and `reserve` share.
abbrev pub over_spend : ℕ → BudgetState → Bool
over_spend cost s = ltb s.spend_limit (s.spent + reserved_sum s + cost)

abbrev pub over_rate : BudgetState → Bool
over_rate s = leb s.rate_limit (length s.calls + length s.reserved)

unfoldable pub can_afford_in : ℕ → ℕ → BudgetState → (Bool × Reason) × BudgetState
can_afford_in cost now s =
    let t = prune now s in
    if over_spend cost t
    then ((false, spend_cap_exceeded t.spent (reserved_sum t) cost t.spend_limit), t)
    else if over_rate t
    then ((false, rate_cap_exceeded t.rate_limit), t)
    else ((true, ok_reason), t)

-- `token` is the fresh `uuid4().hex`.
unfoldable pub reserve_in : String → ℕ → ℕ → BudgetState → (Option String × Reason) × BudgetState
reserve_in token cost now s =
    let t = prune now s in
    if over_spend cost t
    then ((none, spend_cap_exceeded t.spent (reserved_sum t) cost t.spend_limit), t)
    else if over_rate t
    then ((none, rate_cap_exceeded t.rate_limit), t)
    else ((some token, reserved_reason), record t { reserved = insert token cost t.reserved })

charge_held : String → ℕ → Option ℕ → BudgetState → Bool × BudgetState
charge_held token now none s = (false, s)
charge_held token now (some cost) s = (
  true,
  record s {
    reserved = remove token s.reserved;
    spent = s.spent + cost;
    calls = s.calls ++ now ∷ [];
  },
)

unfoldable pub commit_in : String → ℕ → BudgetState → Bool × BudgetState
unfolding charge_held
commit_in token now s = charge_held token now (lookup token s.reserved) s

drop_held : String → Option ℕ → BudgetState → Bool × BudgetState
drop_held token none s = (false, s)
drop_held token (some cost) s = (true, record s { reserved = remove token s.reserved })

unfoldable pub release_in : String → BudgetState → Bool × BudgetState
unfolding drop_held
release_in token s = drop_held token (lookup token s.reserved) s
