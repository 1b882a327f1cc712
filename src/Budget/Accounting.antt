-- ===== src/Budget/Accounting.antt =====
-- What the mutators of src/governance/budget.py do, branch by branch and one after another.
use agentbridge.Base.{
  false, refl, inl, inr, Bool-cases, ◌⊎◌, ℕ, ◌+◌, String, ◌≡◌, true, none, some, [], ◌∷◌, ◌++◌,
  arith, string_eq,
}
use agentbridge.Base.Dict.{Dict, lookup, insert, remove, lookup-insert}
use agentbridge.Store.{BudgetState}
use agentbridge.Store.Exec.{
  Reason, ok_reason, reserved_reason, spend_cap_exceeded, rate_cap_exceeded,
}
use agentbridge.Budget.State.{
  over_spend, over_rate, reserved_sum, prune, can_afford_in, reserve_in, commit_in, release_in,
}
use text.Mathlib.TextEquality.{eq_iff}
use text.Mathlib.TextPositions.{eq_refl}

-- A token that is not held leaves no trace once it is put in and taken out.
pub remove-insert_new :
    (k : String) (v : ℕ) (d : Dict String ℕ) → lookup k d ≡ none → remove k (insert k v d) ≡ d
unfolding lookup insert remove
remove-insert_new k v [] h = rw eq_refl
remove-insert_new k v ((j, w) ∷ d) h = ground (arith, eq_iff j k, remove-insert_new k v d)

-- A reservation is granted exactly where `can_afford` says yes. Either both say yes, for the reasons
-- "reserved" and "ok", or both say no for one reason and leave the same pruned state; `can_afford`
-- leaves the pruned state in either case.
pub reserve-can_afford :
    (s : BudgetState) (token : String) (cost now : ℕ)
    → ((can_afford_in cost now s).1 ≡ prune now s)
      × ((((reserve_in token cost now s).0 ≡ (some token, reserved_reason))
            × ((can_afford_in cost now s).0 ≡ (true, ok_reason)))
          ⊎ ((why : Reason) × (reserve_in token cost now s ≡ ((none, why), prune now s))
              × ((can_afford_in cost now s).0 ≡ (false, why))))
unfolding reserve_in can_afford_in
reserve-can_afford s token cost now =
    let t = prune now s in
    elim (Bool-cases (over_spend cost t)) [
      | inl over ↦
          rw over
            (refl, inr (spend_cap_exceeded t.spent (reserved_sum t) cost t.spend_limit, refl, refl))
      | inr fits ↦ elim (Bool-cases (over_rate t)) [
        | inl full ↦ rw (fits, full) (refl, inr (rate_cap_exceeded t.rate_limit, refl, refl))
        | inr room ↦ rw (fits, room) (refl, inl (refl, refl))
      ]
    ]

module _ (s : BudgetState) (token : String) (cost now : ℕ) (fresh : lookup token s.reserved ≡ none)
    (granted : (reserve_in token cost now s).0.0 ≡ some token) where
  -- The state that a granted reservation leaves: the pruned one with the token held.
  reserve_granted :
      (reserve_in token cost now s).1
      ≡ record (prune now s) { reserved = insert token cost (prune now s).reserved }
  unfolding reserve_in
  reserve_granted = ground arith

  -- Committing a granted token that was new charges exactly its cost and one call, and frees what it held.
  pub commit-reserve :
      (at : ℕ)
      → commit_in token at (reserve_in token cost now s).1 ≡ (
        true,
        record (prune now s) { spent = s.spent + cost; calls = (prune now s).calls ++ at ∷ [] },
      )
  unfolding commit_in prune
  commit-reserve at =
      rw reserve_granted
        (rw lookup-insert (rw eq_refl (rw (remove-insert_new token cost s.reserved fresh))))

  -- Releasing a granted token that was new restores the pruned state: nothing is charged and nothing stays held.
  pub release-reserve : release_in token (reserve_in token cost now s).1 ≡ (true, prune now s)
  unfolding release_in prune
  release-reserve =
      rw reserve_granted
        (rw lookup-insert (rw eq_refl (rw (remove-insert_new token cost s.reserved fresh))))
