-- ===== src/Checks/Money.antt =====
-- Budgets and operations at concrete inputs.
use agentbridge.Base.{
  ◌⊎◌, false, ◌+◌, ◌≤◌, ◌≡◌, refl, true, none, some, [], ◌∷◌, ◌++◌, arith, string_eq, pair_eq,
}
use agentbridge.Base.Dict.{lookup}
use agentbridge.Store.{succeeded}
use agentbridge.Store.Exec.{
  Reason, reserved_reason, ok_reason, err, operation_conflict, reservation_missing,
}
use agentbridge.Budget.Manager.{get_budget, commit, mutate_budget}
use agentbridge.Budget.State.{seed, prune, can_afford_in, reserve_in, commit_in}
use agentbridge.Budget.Deque.{pop_expired, pop_expired-eq-prune}
use agentbridge.Budget.Accounting.{reserve-can_afford, commit-reserve}
use agentbridge.Ledger.Defs.{finish, attach_reservation}
use agentbridge.Ledger.Once.{claims_won, claims_won-le_one, claim_call, finish_call}
use agentbridge.Ledger.Tokens.{OwnsTokens, attach-OwnsTokens}
use agentbridge.Ledger.Settlement.{settle_owned_reservation}
use agentbridge.Ledger.Outcome.{settle_twice}
use text.Mathlib.TextEquality.{eq_iff}
use agentbridge.Checks.Sample.{purse, start}

pop_expired-eq-prune_example : pop_expired 1020 60 (950 ∷ 990 ∷ []) ≡ (prune 1020 purse).calls
pop_expired-eq-prune_example = pop_expired-eq-prune 1020 purse ((ground arith, tt), (tt, tt))

reserve-can_afford_example :
    ((can_afford_in 90 1000 purse).1 ≡ prune 1000 purse)
    × ((((reserve_in "t1" 90 1000 purse).0 ≡ (some "t1", reserved_reason))
          × ((can_afford_in 90 1000 purse).0 ≡ (true, ok_reason)))
        ⊎ ((why : Reason) × (reserve_in "t1" 90 1000 purse ≡ ((none, why), prune 1000 purse))
            × ((can_afford_in 90 1000 purse).0 ≡ (false, why))))
reserve-can_afford_example = reserve-can_afford purse "t1" 90 1000

commit-reserve_example : commit_in "t1" 1005 (reserve_in "t1" 20 1000 purse).1 ≡ (
  true,
  record (prune 1000 purse) { spent = 10 + 20; calls = (prune 1000 purse).calls ++ 1005 ∷ [] },
)
unfolding lookup reserve_in prune
commit-reserve_example = commit-reserve purse "t1" 20 1000 refl refl 1005

claims_won-le_one_example :
    claims_won
      ("ann", "op1")
      (claim_call "ann" "op1" "s1" none none 1000
        ∷ finish_call "ann" "op1" succeeded 1001
        ∷ claim_call "ann" "op1" "s1" none none 1002
        ∷ [])
      start
    ≤ 1
claims_won-le_one_example =
    claims_won-le_one ("ann", "op1")
      (claim_call "ann" "op1" "s1" none none 1000
        ∷ finish_call "ann" "op1" succeeded 1001
        ∷ claim_call "ann" "op1" "s1" none none 1002
        ∷ [])
      start

start-OwnsTokens : OwnsTokens start.operation_reservations
unfolding lookup
start-OwnsTokens = record { unique = λ a o p t h k. ground (arith, eq_iff "op0" o, eq_iff "op0" p) }

attach-OwnsTokens_example :
    OwnsTokens (attach_reservation "ann" "op1" "t0" start).1.operation_reservations
attach-OwnsTokens_example = attach-OwnsTokens "ann" "op1" "t0" start start-OwnsTokens

settle_twice_example :
    let after = (settle_owned_reservation purse "ann" "op0" "t0" succeeded (some 7) 1001 start).1 in
    settle_owned_reservation purse "ann" "op0" "t0" succeeded (some 7) 1002 after
    ≡ (err (operation_conflict reservation_missing), after)
unfolding lookup settle_owned_reservation get_budget commit mutate_budget commit_in seed finish
settle_twice_example =
    settle_twice purse "ann" "op0" "t0" 1001 start succeeded succeeded (some 7) (some 7) 7 "op0"
      1002 (λ e. cc) refl refl
