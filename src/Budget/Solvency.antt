-- ===== src/Budget/Solvency.antt =====
-- The caps of src/governance/budget.py, kept by every mutator and by every schedule of them.
use agentbridge.Base.{
  ℕ, ◌+◌, ◌≤◌, String, ◌≡◌, Bool, some, List, [], ◌∷◌, length, length-append, filter, arith, ltb,
  string_eq, Option-cases, inl, inr,
}
use agentbridge.Base.Dict.{Dict, lookup, insert, remove}
use agentbridge.Store.{BudgetState}
use agentbridge.Budget.State.{
  sum_values, reserved_sum, prune, can_afford_in, reserve_in, commit_in, release_in,
}

-- Up to here the whole numbers are floats, and a sum or a comparison of them is exact.
abbrev pub exact_floats : ℕ
exact_floats = 9007199254740992

-- Both caps hold: what is spent and held fits the limit, and so do the calls and the holds. The
-- amounts are in the range where a float holds every whole number.
pub record IsSolvent (s : BudgetState) : Type 0 where
  pub exact_limit : s.spend_limit ≤ exact_floats
  pub within_spend : s.spent + reserved_sum s ≤ s.spend_limit
  pub within_rate : length s.calls + length s.reserved ≤ s.rate_limit

pub length-filter : (p : ℕ → Bool) (xs : List ℕ) → length (filter p xs) ≤ length xs
length-filter p [] = omega arith
length-filter p (x ∷ xs) = ground (arith, length-filter p xs)

pub sum-insert-le :
    (k : String) (v : ℕ) (d : Dict String ℕ) → sum_values (insert k v d) ≤ sum_values d + v
unfolding insert
sum-insert-le k v [] = omega arith
sum-insert-le k v ((j, w) ∷ d) = ground (arith, sum-insert-le k v d)

pub length-insert-le :
    (k : String) (v : ℕ) (d : Dict String ℕ) → length (insert k v d) ≤ length d + 1
unfolding insert
length-insert-le k v [] = omega arith
length-insert-le k v ((j, w) ∷ d) = ground (arith, length-insert-le k v d)

sum-remove-le : (k : String) (d : Dict String ℕ) → sum_values (remove k d) ≤ sum_values d
unfolding remove
sum-remove-le k [] = omega arith
sum-remove-le k ((j, w) ∷ d) = ground (arith, sum-remove-le k d)

length-remove-le : (k : String) (d : Dict String ℕ) → length (remove k d) ≤ length d
unfolding remove
length-remove-le k [] = omega arith
length-remove-le k ((j, w) ∷ d) = ground (arith, length-remove-le k d)

sum-remove :
    (k : String) (v : ℕ) (d : Dict String ℕ)
    → lookup k d ≡ some v
    → sum_values (remove k d) + v ≤ sum_values d
unfolding lookup remove
sum-remove k v [] h = cc
sum-remove k v ((j, w) ∷ d) h = ground (arith, sum-remove k v d, sum-remove-le k d)

length-remove :
    (k : String) (v : ℕ) (d : Dict String ℕ)
    → lookup k d ≡ some v
    → length (remove k d) + 1 ≤ length d
unfolding lookup remove
length-remove k v [] h = cc
length-remove k v ((j, w) ∷ d) h = ground (arith, length-remove k v d, length-remove-le k d)

module _ (s : BudgetState) (v : IsSolvent s) where
  pub prune-IsSolvent : (now : ℕ) → IsSolvent (prune now s)
  unfolding prune
  prune-IsSolvent now = omega (arith, length-filter (λ t. ltb now (t + s.window_seconds)) s.calls)

  pub can_afford-IsSolvent : (cost now : ℕ) → IsSolvent (can_afford_in cost now s).1
  unfolding can_afford_in
  can_afford-IsSolvent cost now = ground (arith, prune-IsSolvent now)

  pub commit-IsSolvent : (token : String) (now : ℕ) → IsSolvent (commit_in token now s).1
  unfolding commit_in
  commit-IsSolvent token now = elim (Option-cases (lookup token s.reserved)) [
    | inl e ↦ rw e v
    | inr (cost, e) ↦ rw e (
        omega (
          arith,
          sum-remove token cost s.reserved e,
          length-remove token cost s.reserved e,
          length-append {0} s.calls (now ∷ []),
        ))
  ]

  pub release-IsSolvent : (token : String) → IsSolvent (release_in token s).1
  unfolding release_in
  release-IsSolvent token = elim (Option-cases (lookup token s.reserved)) [
    | inl e ↦ rw e v
    | inr (cost, e) ↦
        rw e (omega (arith, sum-remove-le token s.reserved, length-remove-le token s.reserved))
  ]

pub reserve-IsSolvent :
    (s : BudgetState) (token : String) (cost now : ℕ)
    → IsSolvent s
    → IsSolvent (reserve_in token cost now s).1
unfolding reserve_in
reserve-IsSolvent s token cost now v =
    let t = prune now s in
    ground (
      arith,
      prune-IsSolvent s v now,
      sum-insert-le token cost t.reserved,
      length-insert-le token cost t.reserved,
    )
