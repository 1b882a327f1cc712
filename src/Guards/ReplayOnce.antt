-- ===== src/Guards/ReplayOnce.antt =====
-- A signed request is accepted once (src/governance/durable_replay.py).
use agentbridge.Base.{
  ℕ, suc, ◌+◌, ◌*◌, ◌≤◌, ◌<◌, String, ◌≡◌, ◌⊎◌, refl, Bool, true, false, ◌&&◌, Option, some, List,
  [], ◌∷◌, ◌==◌, string_eq, pair_eq, pair_beq_iff, leb, if◌then◌else◌, arith, inl, inr,
  Option-cases, Bool-cases,
}
use agentbridge.Base.Dict.{lookup, lookup-insert, lookup-insert_same}
use agentbridge.Guards.Replay.{Nonces, expire, claim_nonce}

-- A claim: the agent, the nonce and the clock of the worker.
abbrev pub Claim : Type 0
Claim = (String × String) × ℕ

-- The clocks of the claims do not go back.
abbrev pub IsOrdered : ℕ → List Claim → Type 0
IsOrdered t [] = Unit
IsOrdered t (c ∷ cs) = (t ≤ c.1) × IsOrdered c.1 cs

lookup-expire :
    (ttl now at : ℕ) (k : String × String) (rows : Nonces)
    → lookup k rows ≡ some at
    → now ≤ at + 2 * ttl
    → lookup k (expire ttl now rows) ≡ some at
unfolding lookup expire
lookup-expire ttl now at k [] h young = cc
lookup-expire ttl now at k ((j, v) ∷ rows) h young = ground (arith, lookup-expire ttl now at k rows)

module _ (stamp : String → Option ℕ) (ttl : ℕ) where
  abbrev pub run_claim : Claim → Nonces → Bool × Nonces
  run_claim ((a, n), now) rows = claim_nonce stamp ttl a n now rows

  -- How many claims of the nonce are accepted.
  pub accepted : String × String → List Claim → Nonces → ℕ
  accepted k [] rows = 0
  accepted k (c ∷ cs) rows =
      let rest = accepted k cs (run_claim c rows).1 in
      if c.0 == k && (run_claim c rows).0 then suc rest else rest

  -- The nonce was accepted before: its row is there, or its time is past.
  abbrev IsSpent : String × String → ℕ → ℕ → Nonces → Type 0
  IsSpent k ts t rows = ((at : ℕ) × (lookup k rows ≡ some at) × (ts ≤ at + ttl)) ⊎ (ts + ttl < t)

  claim_nonce-keeps :
      (k : String × String) (at : ℕ) (a n : String) (now : ℕ) (rows : Nonces)
      → lookup k rows ≡ some at
      → now ≤ at + 2 * ttl
      → lookup k (claim_nonce stamp ttl a n now rows).1 ≡ some at
  unfolding claim_nonce
  claim_nonce-keeps k at a n now rows e young =
      let kept = lookup-expire ttl now at k rows e young in
      let written = lookup-insert (a, n) k now (expire ttl now rows) in
      let same = pair_beq_iff (a, n) k in ground arith

  IsSpent-later :
      (k : String × String) (ts t : ℕ) (c : Claim) (rows : Nonces)
      → t ≤ c.1
      → IsSpent k ts t rows
      → IsSpent k ts c.1 (run_claim c rows).1
  IsSpent-later k ts t ((a, n), now) rows le (inr past) = inr (omega arith)
  IsSpent-later k ts t ((a, n), now) rows le (inl (at, e, near)) =
      elim (Bool-cases (leb now (at + 2 * ttl))) [
        | inl young ↦ inl (at, claim_nonce-keeps k at a n now rows e (ground arith), near)
        | inr old ↦ inr (ground arith)
      ]

  spent-refused :
      (k : String × String) (ts t : ℕ) (c : Claim) (rows : Nonces)
      → t ≤ c.1
      → stamp k.1 ≡ some ts
      → IsSpent k ts t rows
      → c.0 ≡ k
      → (run_claim c rows).0 ≡ false
  unfolding claim_nonce
  spent-refused k ts t (j, now) rows le s (inr past) same = rw same (rw s (ground arith))
  spent-refused k ts t (j, now) rows le s (inl (at, e, near)) same =
      let kept = lookup-expire ttl now at k rows e in rw same (rw s (ground arith))

  spent-none :
      (k : String × String) (ts t : ℕ) (cs : List Claim) (rows : Nonces)
      → IsOrdered t cs
      → stamp k.1 ≡ some ts
      → IsSpent k ts t rows
      → accepted k cs rows ≡ 0
  unfolding accepted
  spent-none k ts t [] rows order s h = refl
  spent-none k ts t (c ∷ cs) rows order s h =
      let later =
        spent-none k ts c.1 cs (run_claim c rows).1 order.1 s
          (IsSpent-later k ts t c rows order.0 h) in
      let refused = spent-refused k ts t c rows order.0 s h in
      let same = pair_beq_iff c.0 k in ground arith

  -- An accepted claim spends its nonce.
  won-IsSpent :
      (a n : String) (now : ℕ) (rows : Nonces)
      → (claim_nonce stamp ttl a n now rows).0 ≡ true
      → (ts : ℕ) × (stamp n ≡ some ts)
        × IsSpent (a, n) ts now (claim_nonce stamp ttl a n now rows).1
  unfolding claim_nonce
  won-IsSpent a n now rows won = elim (Option-cases (stamp n)) [
    | inl e ↦ absurd (ground arith)
    | inr (ts, e) ↦
        let written = lookup-insert_same (a, n) now (expire ttl now rows) in
        (ts, e, inl (now, rw e (ground arith), ground arith))
  ]

  -- However many workers claim a signed nonce on one store, in any order with clocks that do not go
  -- back, and however often expired rows are deleted meanwhile, at most one claim is ever accepted.
  pub accepted-le_one :
      (k : String × String) (t : ℕ) (cs : List Claim) (rows : Nonces)
      → IsOrdered t cs
      → accepted k cs rows ≤ 1
  unfolding accepted
  accepted-le_one k t [] rows order = omega arith
  accepted-le_one k t (((a, n), now) ∷ cs) rows order =
      let later = accepted-le_one k now cs (claim_nonce stamp ttl a n now rows).1 order.1 in
      elim (Bool-cases ((claim_nonce stamp ttl a n now rows).0)) [
        | inr lost ↦ ground arith
        | inl won ↦
            let (ts, s, spent) = won-IsSpent a n now rows won in
            let none_left =
              spent-none (a, n) ts now cs (claim_nonce stamp ttl a n now rows).1 order.1 s spent in
            let same = pair_beq_iff (a, n) k in ground arith
      ]
