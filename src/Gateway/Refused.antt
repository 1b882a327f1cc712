-- ===== src/Gateway/Refused.antt =====
-- Why an admission transaction of src/governance/gateway.py raises.
use agentbridge.Base.{
  String, ◌≡◌, ◌⊎◌, refl, sym, subst, ap, ◌∙◌, true, false, ◌&&◌, Option, none, some, arith, inl,
  inr, string_eq, pair_eq,
}
use agentbridge.Base.Dict.{IsKeyed, lookup, insert, has, remove, lookup-insert_same}
use agentbridge.Store.{BudgetState, World}
use agentbridge.Store.Exec.{
  reserved_reason, Error, Decision, Reason, ok, err, pure, admission_rejected, grant_consumed,
}
use agentbridge.Store.Atomic.{sql_atomic_rollback, bind-err, rolled_back-err}
use agentbridge.Budget.State.{num, reserve_in, can_afford_in, checked_cost}
use agentbridge.Budget.Manager.{reserve, mutate_budget}
use agentbridge.Budget.Accounting.{reserve-can_afford}
use agentbridge.Ledger.Defs.{claim, claim_body, attach_reservation, is_attached, is_bounded}
use agentbridge.Approvals.Queue.{is_granted}
use agentbridge.Approvals.Consume.{consume-is_granted, consume-returns}
use agentbridge.Policy.Engine.{refused}
use agentbridge.Gateway.Standing.{claimed_row}
use agentbridge.Gateway.Admitted.{
  reserve_in-held, base, chain, after_reserve, after_token, after_link, admit_body-chain,
}
use agentbridge.Gateway.Admit.{Gateway, Call, Fresh, admit_body, admit_transaction, consume_if}

module _ (g : Gateway) (k : Call) (f : Fresh) (o : String) (w : World) where
  -- A new operation with identifiers of the right size and a fresh token.
  pub record IsNew : Type 0 where
    pub sized :
        (is_bounded k.agent_id && is_bounded o && is_bounded k.scope && is_bounded f.token) ≡ true
    pub unknown : lookup (k.agent_id, o) w.agent_operations ≡ none
    pub unbound : has (k.agent_id, o) w.operation_reservations ≡ false
    pub unattached : is_attached k.agent_id f.token w.operation_reservations ≡ false

  abbrev claimed : World
  claimed = record w {
    db = record w.db {
      agent_operations = insert (k.agent_id, o) (claimed_row k f o) w.agent_operations;
    };
  }

  abbrev answered : (Option String × Reason) × BudgetState
  answered = reserve_in f.token k.cost f.clock.now (base g k f w)

  abbrev asked : World
  asked = record claimed {
    db = record claimed.db { budgets = insert k.agent_id answered.1 w.budgets };
    budget_cache = remove k.agent_id w.budget_cache;
  }

  claim-new :
      IsNew → claim k.agent_id o k.scope none none (pure tt) f.clock.now w ≡ (ok tt, claimed)
  unfolding claim claim_body
  claim-new n = ground (arith, n.sized, n.unknown)

  reserve-new :
      reserve g.config.default_budget k.agent_id (num k.cost) f.clock.now f.token claimed
      ≡ (ok answered.0, asked)
  unfolding reserve mutate_budget checked_cost
  reserve-new = refl

  attach-new :
      IsNew
      → has f.token answered.1.reserved ≡ true
      → ((attach_reservation k.agent_id o f.token asked).0 ≡ ok tt)
        × ((attach_reservation k.agent_id o f.token asked).1.approvals ≡ w.approvals)
  unfolding attach_reservation
  attach-new n held = ground (
    arith,
    n.sized,
    n.unbound,
    n.unattached,
    held,
    lookup-insert_same (k.agent_id, o) (claimed_row k f o) w.agent_operations,
    lookup-insert_same k.agent_id answered.1 w.budgets,
  )

  module _ (d : Decision) where
    chain-asked : IsNew → chain g k f o d w w ≡ after_reserve g k f o d w answered.0 asked
    chain-asked n = rw (claim-new n, reserve-new) refl

    -- The grant that the decision asks for is not there.
    abbrev pub LacksGrant : Error → Type 0
    LacksGrant e =
        (d.approval_required ≡ true)
        × ((g.config.has_approvals && is_granted k.agent_id k.capability (some k.scope) w) ≡ false)
        × (e ≡ admission_rejected (refused grant_consumed))

    -- The budget refuses the cost, for the reason that `can_afford` gives.
    abbrev pub LacksBudget : Error → Type 0
    LacksBudget e =
        (why : Reason) × ((can_afford_in k.cost f.clock.now (base g k f w)).0 ≡ (false, why))
        × (e ≡ admission_rejected (refused why))

    consume_if-err :
        (v : World) (e : Error)
        → IsKeyed w.approvals
        → v.approvals ≡ w.approvals
        → is_granted k.agent_id k.capability (some k.scope) v
          ≡ is_granted k.agent_id k.capability (some k.scope) w
        → (consume_if g.config.has_approvals k d v).0 ≡ err e
        → LacksGrant e
    consume_if-err v e keyed same seen h =
        let granted =
          consume-is_granted k.agent_id k.capability (some k.scope) v
            (subst (λ a. IsKeyed a) (sym same) keyed) in
        let returned = consume-returns k.agent_id k.capability (some k.scope) v in
        ground (arith, h, granted, returned, seen)

    granted-same :
        (v : World)
        → v.approvals ≡ w.approvals
        → is_granted k.agent_id k.capability (some k.scope) v
          ≡ is_granted k.agent_id k.capability (some k.scope) w
    unfolding is_granted
    granted-same v same = rw same refl

    denied_err :
        (why : Reason) (e : Error)
        → answered.0 ≡ (none, why)
        → (after_reserve g k f o d w answered.0 asked).0 ≡ err e
        → e ≡ admission_rejected (refused why)
    denied_err why e answer h =
        ground (arith, subst (λ a. (after_reserve g k f o d w a asked).0 ≡ err e) answer h)

    granted_err :
        (e : Error)
        → IsNew
        → IsKeyed w.approvals
        → answered.0 ≡ (some f.token, reserved_reason)
        → (after_reserve g k f o d w answered.0 asked).0 ≡ err e
        → LacksGrant e
    granted_err e n keyed answer h =
        let entered : (after_token g k f o d w f.token asked).0 ≡ err e =
          subst (λ a. (after_reserve g k f o d w a asked).0 ≡ err e) answer h in
        let held = (reserve_in-held g k f f.token reserved_reason (base g k f w) answer).1 in
        let (attached, kept) = attach-new n (ground (arith, held)) in
        let linked = (attach_reservation k.agent_id o f.token asked).1 in
        elim (bind-err (attach_reservation k.agent_id o f.token)
          (λ _. after_link g k f o d w f.token) asked e entered) [
            | inl failed ↦ absurd (ground (arith, failed, attached))
            | inr (u, _, later) ↦
                elim (bind-err (consume_if g.config.has_approvals k d) (λ _. pure f.token) linked e
                  later) [
                    | inl failed ↦
                        consume_if-err linked e keyed kept (granted-same linked kept) failed
                    | inr (u', _, last) ↦ absurd (ground (arith, last))
                  ]
          ]

    chain-err :
        (e : Error)
        → IsNew
        → IsKeyed w.approvals
        → (chain g k f o d w w).0 ≡ err e
        → LacksBudget e ⊎ LacksGrant e
    chain-err e n keyed h =
        let asked_err = ap (λ r. r.0) (sym (chain-asked n)) ∙ h in
        elim (reserve-can_afford (base g k f w) f.token k.cost f.clock.now).1 [
          | inr (why, refused_by, denied) ↦
              inl (why, denied, denied_err why e (ap (λ r. r.0) refused_by) asked_err)
          | inl (granted, _) ↦ inr (granted_err e n keyed granted asked_err)
        ]

    -- Where every approval id stands once, a transaction for an operation that is new to the ledger and to
    -- the reservations, with identifiers of the right size and a token that no operation of the agent
    -- has, raises for one of two reasons only: the budget refuses the cost, for the reason that
    -- `can_afford` gives, or the decision asks for a grant and none is there. Then no table has changed.
    pub admit_transaction-err :
        (e : Error)
        → k.operation_id ≡ some o
        → IsNew
        → IsKeyed w.approvals
        → (admit_transaction g k f d w).0 ≡ err e
        → (LacksBudget e ⊎ LacksGrant e) × ((admit_transaction g k f d w).1.db ≡ w.db)
    unfolding admit_transaction
    admit_transaction-err e named n keyed h =
        let body = admit_body-chain g k f o d w named in
        let raised = rolled_back-err (admit_body g k f d w) w.db e h in
        (
          chain-err e n keyed (ap (λ r. r.0) (sym body) ∙ raised),
          sql_atomic_rollback (admit_body g k f d) w e h,
        )
