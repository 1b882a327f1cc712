-- ===== src/Gateway/Settled.antt =====
-- What the outcome of an admitted call does to its reservation and its operation
-- (src/governance/gateway.py).
use agentbridge.Base.{
  ℕ, String, ◌≡◌, ◌≢◌, ◌⊎◌, ap, ◌∙◌, ◌++◌, [], ◌∷◌, some, inl, inr, arith, string_eq, pair_eq,
}
use agentbridge.Base.Dict.{lookup, lookup-insert_same}
use agentbridge.Store.{BudgetState, OperationRow, AuditEntry, unknown, succeeded, World}
use agentbridge.Store.Exec.{
  Error, Result-cases, continue, pure, ok, err, operation_conflict, already_settled,
}
use agentbridge.Audit.Table.{insert_audit, append_audit_chained}
use agentbridge.Audit.Log.{Fields, record_entry}
use agentbridge.Audit.Links.{next_entry}
use agentbridge.Gateway.Admit.{Gateway, Admission, fields_of}
use agentbridge.Gateway.Standing.{SameAccounts}
use agentbridge.Gateway.Settle.{
  settle, abort_admission, invocation_failed, audit_admission, settle_body, abort_body,
}
use agentbridge.Ledger.Settlement.{lock_unknown_operation}
use agentbridge.Ledger.Outcome.{settle_lem, settled_world}

module _ (g : Gateway) (a : Admission) (now : ℕ) where
  record_entry-same : (f : Fields) (w : World) → SameAccounts (record_entry g.hash g.size f w).1 w
  unfolding record_entry append_audit_chained insert_audit
  record_entry-same f w = ground arith

  -- A record that returns has appended the entry it returns.
  record_entry-ok :
      (f : Fields) (w : World) (x : AuditEntry)
      → (record_entry g.hash g.size f w).0 ≡ ok x
      → (x ≡ next_entry g.hash f w.audit)
        × ((record_entry g.hash g.size f w).1.audit ≡ w.audit ++ next_entry g.hash f w.audit ∷ [])
  unfolding record_entry append_audit_chained insert_audit
  record_entry-ok f w x h = ground arith

  -- A failed invocation of an operation keeps its exposure: whatever the audit write does, the
  -- budget, the operation and its reservation stay as they were.
  pub invocation_failed-keeps :
      (o why : String) (w : World)
      → a.call.operation_id ≡ some o
      → SameAccounts (invocation_failed g a now why w).1 w
  unfolding invocation_failed audit_admission
  invocation_failed-keeps o why w h =
      let same = record_entry-same (fields_of a.call "unknown" why 0 now) w in
      elim (Result-cases (record_entry g.hash g.size (fields_of a.call "unknown" why 0 now) w).0) [
        | inl (e, p) ↦ rw (h, p) same
        | inr (e, p) ↦ rw (h, p) same
      ]

  refused_when_settled :
      (o : String) (row : OperationRow) (w : World)
      → a.call.operation_id ≡ some o
      → lookup (a.call.agent_id, o) w.agent_operations ≡ some row
      → row.state ≢ unknown
      → (settle g a now w ≡ (err (operation_conflict already_settled), w))
        × (abort_admission g a now w ≡ (err (operation_conflict already_settled), w))
  unfolding settle settle_body abort_admission abort_body lock_unknown_operation
  refused_when_settled o row w h ho hu = ground arith

  module _ (o : String) (s : BudgetState) (row : OperationRow) (w : World) where
    abbrev pub charged : World
    charged = settled_world succeeded a.call.agent_id o a.token a.call.cost now s row w

    abbrev pub allowed_fields : Fields
    allowed_fields = fields_of a.call "allow" (g.text a.decision.reason) a.call.cost now

    -- The entry that `_settle` records.
    abbrev pub entry : AuditEntry
    entry = next_entry g.hash allowed_fields w.audit

    settle_body-charged :
        a.call.operation_id ≡ some o
        → lookup (a.call.agent_id, o) w.operation_reservations ≡ some a.token
        → lookup a.call.agent_id w.budgets ≡ some s
        → lookup a.token s.reserved ≡ some a.call.cost
        → lookup (a.call.agent_id, o) w.agent_operations ≡ some row
        → row.state ≡ unknown
        → settle_body g a now w
          ≡ continue (record_entry g.hash g.size allowed_fields charged) (λ _. pure tt)
    unfolding settle_body audit_admission lock_unknown_operation
    settle_body-charged h hr hb ht ho hu =
        let paid =
          settle_lem g.config.default_budget a.call.agent_id o a.token now w succeeded s row
            a.call.cost (λ e. cc) hr hb ht ho in
        rw (h, ho, hu, paid)

    -- Exactly one of two things happens when a successful call of an operation is settled, where the
    -- operation is unknown and its reservation holds the cost of the call. Either the audit accepts
    -- the entry, which says "allow" with the cost of the call and is the new end of the log: the
    -- budget is charged the cost and one call, the token is spent and the operation has succeeded. Or the audit refuses it: `_settle` raises, and no table has changed.
    pub settle-exact :
        a.call.operation_id ≡ some o
        → lookup (a.call.agent_id, o) w.operation_reservations ≡ some a.token
        → lookup a.call.agent_id w.budgets ≡ some s
        → lookup a.token s.reserved ≡ some a.call.cost
        → lookup (a.call.agent_id, o) w.agent_operations ≡ some row
        → row.state ≡ unknown
        → (((record_entry g.hash g.size allowed_fields charged).0 ≡ ok entry)
            × ((settle g a now w).0 ≡ ok tt)
            × SameAccounts (settle g a now w).1 charged
            × ((settle g a now w).1.audit ≡ w.audit ++ entry ∷ []))
          ⊎ ((e : Error) × ((record_entry g.hash g.size allowed_fields charged).0 ≡ err e)
              × ((settle g a now w).0 ≡ err e)
              × ((settle g a now w).1.db ≡ w.db))
    unfolding settle
    settle-exact h hr hb ht ho hu =
        let body = settle_body-charged h hr hb ht ho hu in
        let same = record_entry-same allowed_fields charged in
        elim (Result-cases (record_entry g.hash g.size allowed_fields charged).0) [
          | inl (x, p) ↦
              let (built, kept) = record_entry-ok allowed_fields charged x p in
              inl (p ∙ ap ok built, rw (body, p), rw (body, p) same, rw (body, p) kept)
          | inr (e, p) ↦ inr (e, p, rw (body, p), rw (body, p))
        ]

-- An operation is accounted once: where the operation was unknown and its reservation held the cost
-- of the call, after a settlement that returned, settling or aborting the same admission again, at
-- any later time, raises and changes nothing.
pub settle-once :
    (g : Gateway) (a : Admission) (now later : ℕ) (o : String) (s : BudgetState)
    (row : OperationRow) (w : World)
    → a.call.operation_id ≡ some o
    → lookup (a.call.agent_id, o) w.operation_reservations ≡ some a.token
    → lookup a.call.agent_id w.budgets ≡ some s
    → lookup a.token s.reserved ≡ some a.call.cost
    → lookup (a.call.agent_id, o) w.agent_operations ≡ some row
    → row.state ≡ unknown
    → (settle g a now w).0 ≡ ok tt
    → let after = (settle g a now w).1 in
      (settle g a later after ≡ (err (operation_conflict already_settled), after))
      × (abort_admission g a later after ≡ (err (operation_conflict already_settled), after))
settle-once g a now later o s row w h hr hb ht ho hu done =
    let final : OperationRow = record row { state = succeeded; updated = now } in
    let written = lookup-insert_same (a.call.agent_id, o) final w.agent_operations in
    elim (settle-exact g a now o s row w h hr hb ht ho hu) [
      | inl (recorded, p, same, kept) ↦
          refused_when_settled g a later o final (settle g a now w).1 h
            (ap (lookup (a.call.agent_id, o)) same.1 ∙ written) (λ e. cc)
      | inr (e, p, q, r) ↦ absurd (ground arith)
    ]
