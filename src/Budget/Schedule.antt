-- ===== src/Budget/Schedule.antt =====
-- Calls of `BudgetManager` from any workers, in any order, on one shared database.
use agentbridge.Base.{ℕ, String, List, [], ◌∷◌, string_eq}
use agentbridge.Base.Dict.{Everywhere}
use agentbridge.Store.{BudgetState, World}
use agentbridge.Budget.State.{RawCost}
use agentbridge.Budget.Manager.{can_afford, reserve, commit, release, get}
use agentbridge.Budget.Solvency.{IsSolvent}

-- One call, with the clock and the fresh token that it sees. `restart` empties the process's cache.
pub data BudgetCall : Type 0 where
  afford_call : String → RawCost → ℕ → BudgetCall
  reserve_call : String → RawCost → ℕ → String → BudgetCall
  commit_call : String → String → ℕ → BudgetCall
  release_call : String → String → BudgetCall
  get_call : String → BudgetCall
  restart : BudgetCall

module _ (default : BudgetState) where
  unfoldable pub serve : BudgetCall → World → World
  serve (afford_call a c now) w = (can_afford default a c now w).1
  serve (reserve_call a c now t) w = (reserve default a c now t w).1
  serve (commit_call a t now) w = (commit default a t now w).1
  serve (release_call a t) w = (release default a t w).1
  serve (get_call a) w = (get default a w).1
  serve restart w = record w { budget_cache = [] }

  unfoldable pub serve_all : List BudgetCall → World → World
  serve_all [] w = w
  serve_all (c ∷ cs) w = serve_all cs (serve c w)

-- Every persisted budget and every cached one keeps its caps.
pub record IsSolventWorld (w : World) : Type 0 where
  pub rows : Everywhere IsSolvent w.budgets
  pub cached : Everywhere IsSolvent w.budget_cache
