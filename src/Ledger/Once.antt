-- ===== src/Ledger/Once.antt =====
-- An operation key is claimed at most once, whatever the workers do
-- (src/governance/operation_ledger.py).
use agentbridge.Base.{
  ℕ, suc, ◌≤◌, String, ◌≡◌, ◌≢◌, refl, inl, inr, Bool, true, false, Option, none, List, [], ◌∷◌,
  arith, ◌==◌, string_eq, pair_eq, if◌then◌else◌, Option-cases, Bool-cases,
}
use agentbridge.Base.Dict.{Dict, lookup, insert, has, lookup-insert}
use agentbridge.Store.{OperationRow, OperationState, unknown, World}
use agentbridge.Store.Exec.{Exec, Result, ok, err, pure}
use agentbridge.Ledger.Defs.{Binding, claim, claim_body, attach_reservation, finish}

module _ (a o f : String) (token : Option String) (binding : Option Binding) (stamp : ℕ)
    (w : World) where
  pub claim-ok :
      (claim a o f token binding (pure tt) stamp w).0 ≡ ok tt
      → (lookup (a, o) w.agent_operations ≡ none)
        × ((claim a o f token binding (pure tt) stamp w).1.agent_operations
            ≡ insert
                (a, o)
                (record { fingerprint = f; state = unknown; updated = stamp })
                w.agent_operations)
  unfolding claim claim_body
  claim-ok h = ground arith

  claim-err :
      (claim a o f token binding (pure tt) stamp w).0 ≢ ok tt
      → (claim a o f token binding (pure tt) stamp w).1.db ≡ w.db
  unfolding claim claim_body
  claim-err h = ground arith

-- The calls on the ledger, each with the clock that it reads.
pub data LedgerCall : Type 0 where
  claim_call : String → String → String → Option String → Option Binding → ℕ → LedgerCall
  attach_call : String → String → String → LedgerCall
  finish_call : String → String → OperationState → ℕ → LedgerCall

abbrev pub ledger_apply : LedgerCall → Exec (Unit {0})
ledger_apply (claim_call a o f t b stamp) = claim a o f t b (pure tt) stamp
ledger_apply (attach_call a o t) = attach_reservation a o t
ledger_apply (finish_call a o s stamp) = finish a o s stamp

-- Whether a call is a claim of the key, and whether it returned.
abbrev is_claim_of : String × String → LedgerCall → Bool
is_claim_of k (claim_call a o _ _ _ _) = (a, o) == k
is_claim_of k _ = false

abbrev returned : Result (Unit {0}) → Bool
returned (ok _) = true
returned (err _) = false

-- How many of the calls are claims of the key that return.
pub claims_won : String × String → List LedgerCall → World → ℕ
claims_won k [] w = 0
claims_won k (c ∷ cs) w =
    let rest = claims_won k cs (ledger_apply c w).1 in
    if is_claim_of k c then (if returned (ledger_apply c w).0 then suc rest else rest) else rest

-- A write keeps every key.
has-insert :
    (k j : String × String) (row : OperationRow) (d : Dict (String × String) OperationRow)
    → has k d ≡ true
    → has k (insert j row d) ≡ true
has-insert k j row d h = rw lookup-insert (ground (arith, h))

has_after_claim :
    (k : String × String) (a o f : String) (t : Option String) (b : Option Binding) (stamp : ℕ)
    (w : World)
    → has k w.agent_operations ≡ true
    → has k (claim a o f t b (pure tt) stamp w).1.agent_operations ≡ true
unfolding claim claim_body
has_after_claim k a o f t b stamp w h = ground (
  arith,
  has-insert k (a, o) (record { fingerprint = f; state = unknown; updated = stamp })
      w.agent_operations h,
)

-- A known operation stays known.
apply-has :
    (k : String × String) (c : LedgerCall) (w : World)
    → has k w.agent_operations ≡ true
    → has k (ledger_apply c w).1.agent_operations ≡ true
unfolding attach_reservation finish
apply-has k (claim_call a o f t b stamp) w h = has_after_claim k a o f t b stamp w h
apply-has k (attach_call a o t) w h = ground arith
apply-has k (finish_call a o s stamp) w h = elim (Option-cases (lookup (a, o) w.agent_operations)) [
  | inl e ↦ ground arith
  | inr (row, e) ↦ rw e (has-insert k (a, o) _ w.agent_operations h)
]

returned-ok : (r : Result (Unit {0})) → returned r ≡ true → r ≡ ok tt
returned-ok (ok u) h = refl
returned-ok (err e) h = cc

-- A claim of a known key does not return.
known_claim_fails :
    (k : String × String) (c : LedgerCall) (w : World)
    → has k w.agent_operations ≡ true
    → is_claim_of k c ≡ true
    → returned (ledger_apply c w).0 ≡ false
known_claim_fails k (claim_call a o f t b stamp) w h e =
    elim (Bool-cases (returned (claim a o f t b (pure tt) stamp w).0)) [
      | inr no_return ↦ no_return
      | inl won ↦
          ground
            (arith, (claim-ok a o f t b stamp w (returned-ok _ won)).0, pair_eq.beq_iff (a, o) k)
    ]
known_claim_fails k (attach_call _ _ _) w h e = cc
known_claim_fails k (finish_call _ _ _ _) w h e = cc

-- A claim that returns makes its key known.
won_claim_known :
    (k : String × String) (c : LedgerCall) (w : World)
    → is_claim_of k c ≡ true
    → returned (ledger_apply c w).0 ≡ true
    → has k (ledger_apply c w).1.agent_operations ≡ true
won_claim_known k (claim_call a o f t b stamp) w e h =
    rw ((claim-ok a o f t b stamp w (returned-ok _ h)).1) (rw lookup-insert (rw e))
won_claim_known k (attach_call _ _ _) w e h = cc
won_claim_known k (finish_call _ _ _ _) w e h = cc

won-none :
    (k : String × String) (cs : List LedgerCall) (w : World)
    → has k w.agent_operations ≡ true
    → claims_won k cs w ≡ 0
unfolding claims_won
won-none k [] w h = refl
won-none k (c ∷ cs) w h =
    ground
      (arith, known_claim_fails k c w h, won-none k cs (ledger_apply c w).1 (apply-has k c w h))

-- Whatever the ledger holds at first and whatever is called after, in any order, at most one claim
-- of an operation key ever returns.
pub claims_won-le_one :
    (k : String × String) (cs : List LedgerCall) (w : World) → claims_won k cs w ≤ 1
unfolding claims_won
claims_won-le_one k [] w = omega arith
claims_won-le_one k (c ∷ cs) w = ground (
  arith,
  won_claim_known k c w,
  won-none k cs (ledger_apply c w).1,
  claims_won-le_one k cs (ledger_apply c w).1,
)
