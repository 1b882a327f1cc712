-- ===== src/Budget/Deque.antt =====
-- `Budget._prune` of src/governance/budget.py drops calls from the left of a deque, and the `_prune`
-- of the persisted state filters the list. Calls are appended in time order.
use agentbridge.Base.{
  ℕ, ◌+◌, ◌≤◌, ◌≡◌, refl, List, [], ◌∷◌, filter, arith, ltb, leb, if◌then◌else◌, All,
}
use agentbridge.Store.{BudgetState}
use agentbridge.Budget.State.{prune}

-- `while calls and calls[0] <= cutoff: calls.popleft()`, with `cutoff = now - window`
unfoldable pub pop_expired : ℕ → ℕ → List ℕ → List ℕ
pop_expired now window [] = []
pop_expired now window (t ∷ ts) =
    let rest = pop_expired now window ts in if leb (t + window) now then rest else t ∷ ts

-- Each call is at least as late as those before it.
abbrev pub IsAscending : List ℕ → Type 0
IsAscending [] = Unit
IsAscending (t ∷ ts) = All (λ u. t ≤ u) ts × IsAscending ts

filter-later :
    (now window t : ℕ) (ts : List ℕ)
    → now + 1 ≤ t + window
    → All (λ u. t ≤ u) ts
    → filter (λ u. ltb now (u + window)) ts ≡ ts
filter-later now window t [] h later = refl
filter-later now window t (u ∷ ts) h later = ground (arith, filter-later now window t ts h later.1)

-- On calls in time order the deque and the filter keep the same calls.
pub pop_expired-eq-prune :
    (now : ℕ) (s : BudgetState)
    → IsAscending s.calls
    → pop_expired now s.window_seconds s.calls ≡ (prune now s).calls
unfolding pop_expired prune
pop_expired-eq-prune now s = go s.calls
  where
    go :
        (ts : List ℕ)
        → IsAscending ts
        → pop_expired now s.window_seconds ts ≡ filter (λ t. ltb now (t + s.window_seconds)) ts
    go [] h = refl
    go (t ∷ ts) h = ground (arith, go ts h.1, filter-later now s.window_seconds t ts)
