-- ===== src/Ledger/Outcome.antt =====
-- What settling a reservation does (src/governance/owned_settlement.py).
use agentbridge.Base.{
  ℕ, ◌+◌, String, ◌≡◌, ◌≢◌, refl, Option, none, some, ◌∷◌, ◌++◌, [], arith, pair_eq, string_eq,
  Option-cases, inl, inr,
}
use agentbridge.Base.Dict.{lookup, insert, remove, lookup-insert, lookup-remove}
use agentbridge.Store.{BudgetState, OperationRow, OperationState, unknown, succeeded, failed, World}
use agentbridge.Store.Exec.{ok, err, operation_conflict, reservation_missing}
use agentbridge.Budget.State.{seed, commit_in, release_in}
use agentbridge.Budget.Manager.{mutate_budget, get_budget, commit, release}
use agentbridge.Ledger.Defs.{finish}
use agentbridge.Ledger.Settlement.{settle_owned_reservation}
use text.Mathlib.TextEquality.{eq_iff}
use text.Mathlib.TextPositions.{eq_refl}

-- The budget row after the settlement of `amount`, held under `token`.
abbrev pub settled_budget : OperationState → String → ℕ → ℕ → BudgetState → BudgetState
settled_budget succeeded token amount now s = record s {
  reserved = remove token s.reserved;
  spent = s.spent + amount;
  calls = s.calls ++ now ∷ [];
}
settled_budget _ token amount now s = record s { reserved = remove token s.reserved }

abbrev pub settled_world :
    OperationState → String → String → String → ℕ → ℕ → BudgetState → OperationRow → World → World
settled_world outcome a o t amount now s row w = record w {
  db = record w.db {
    budgets = insert a (settled_budget outcome t amount now s) w.budgets;
    agent_operations =
        insert (a, o) (record row { state = outcome; updated = now }) w.agent_operations;
  };
  budget_cache = remove a w.budget_cache;
}

module _ (default : BudgetState) (a o t : String) (now : ℕ) (w : World) where
  -- An operation whose token is held is charged or released exactly, and gets the outcome.
  pub settle_lem :
      (outcome : OperationState) (s : BudgetState) (row : OperationRow) (amount : ℕ)
      → outcome ≢ unknown
      → lookup (a, o) w.operation_reservations ≡ some t
      → lookup a w.budgets ≡ some s
      → lookup t s.reserved ≡ some amount
      → lookup (a, o) w.agent_operations ≡ some row
      → settle_owned_reservation default a o t outcome (some amount) now w
        ≡ (ok amount, settled_world outcome a o t amount now s row w)
  unfolding settle_owned_reservation mutate_budget get_budget commit release commit_in release_in
      seed finish
  settle_lem unknown s row amount h hr hb ht ho = absurd (h refl)
  settle_lem succeeded s row amount h hr hb ht ho = ground (arith, eq_iff t t)
  settle_lem failed s row amount h hr hb ht ho = ground (arith, eq_iff t t)

  settled_without_token :
      (outcome : OperationState) (amount : ℕ) (s : BudgetState)
      → lookup t (settled_budget outcome t amount now s).reserved ≡ none
  settled_without_token succeeded amount s = rw lookup-remove (rw eq_refl)
  settled_without_token _ amount s = rw lookup-remove (rw eq_refl)

  -- What a settlement that returned leaves, by what it found.
  settle_left :
      (outcome : OperationState) (expected : Option ℕ) (amount held : ℕ) (r : String)
      (s : BudgetState) (row : OperationRow)
      → (settle_owned_reservation default a o t outcome expected now w).0 ≡ ok amount
      → lookup (a, o) w.operation_reservations ≡ some r
      → lookup a w.budgets ≡ some s
      → lookup t s.reserved ≡ some held
      → lookup (a, o) w.agent_operations ≡ some row
      → (settle_owned_reservation default a o t outcome expected now w).1
        ≡ settled_world outcome a o t amount now s row w
  unfolding settle_owned_reservation mutate_budget get_budget commit release commit_in release_in
      seed finish
  settle_left unknown expected amount held r s row h er es eh eo = absurd (ground (arith, h))
  settle_left succeeded expected amount held r s row h er es eh eo =
      ground (arith, h, er, es, eh, eo, eq_iff r t)
  settle_left failed expected amount held r s row h er es eh eo =
      ground (arith, h, er, es, eh, eo, eq_iff r t)

  -- What a settlement that returned has found, and left.
  settle_ran :
      (outcome : OperationState) (expected : Option ℕ) (amount : ℕ)
      → (settle_owned_reservation default a o t outcome expected now w).0 ≡ ok amount
      → (s : BudgetState) × (row : OperationRow) × ((settle_owned_reservation default a o t outcome
            expected now w).1
          ≡ settled_world outcome a o t amount now s row w)
  unfolding settle_owned_reservation mutate_budget get_budget commit release commit_in release_in
      seed finish
  settle_ran outcome expected amount h =
      elim (Option-cases (lookup (a, o) w.operation_reservations)) [
        | inl e ↦ absurd (ground (arith, h, e))
        | inr (r, er) ↦ elim (Option-cases (lookup a w.budgets)) [
          | inl e ↦ absurd (ground (arith, h, er, e))
          | inr (s, es) ↦ elim (Option-cases (lookup t s.reserved)) [
            | inl e ↦ absurd (ground (arith, h, er, es, e))
            | inr (held, eh) ↦ elim (Option-cases (lookup (a, o) w.agent_operations)) [
              | inl e ↦ absurd (ground (arith, h, er, es, eh, e))
              | inr (row, eo) ↦
                  (s, row, settle_left outcome expected amount held r s row h er es eh eo)
            ]
          ]
        ]
      ]

  -- In the world of a settlement the token is not held.
  spent_token :
      (outcome again : OperationState) (s : BudgetState) (row : OperationRow) (amount : ℕ)
      → (p : String) (expected : Option ℕ) (later : ℕ) → again ≢ unknown
      → lookup (a, p) w.operation_reservations ≡ some t
      → let after = settled_world outcome a o t amount now s row w in
        settle_owned_reservation default a p t again expected later after
        ≡ (err (operation_conflict reservation_missing), after)
  unfolding settle_owned_reservation get_budget
  spent_token outcome unknown s row amount p expected later h hr = absurd (h refl)
  spent_token outcome _ s row amount p expected later h hr = ground (
    arith,
    eq_iff t t,
    eq_iff a a,
    lookup-insert a a (settled_budget outcome t amount now s) w.budgets,
    lookup-remove t t s.reserved,
    settled_without_token outcome amount s,
  )

  -- After a settlement that returned, its token is spent: any further settlement with it, for the
  -- same operation or for another one of the agent whose reservation it is, with either outcome, at
  -- any time and whatever cost is expected, raises and writes nothing.
  pub settle_twice :
      (outcome again : OperationState) (expected expected' : Option ℕ) (amount : ℕ) (p : String)
      (later : ℕ)
      → again ≢ unknown
      → lookup (a, p) w.operation_reservations ≡ some t
      → (settle_owned_reservation default a o t outcome expected now w).0 ≡ ok amount
      → let after = (settle_owned_reservation default a o t outcome expected now w).1 in
        settle_owned_reservation default a p t again expected' later after
        ≡ (err (operation_conflict reservation_missing), after)
  settle_twice outcome again expected expected' amount p later h hr ran =
      let (s, row, left) = settle_ran outcome expected amount ran in
      rw left (spent_token outcome again s row amount p expected' later h hr)
